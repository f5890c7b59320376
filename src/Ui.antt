-- ===== src/Ui.antt =====
-- Package internal/ui: the dashboard's data, the toasts and the static files.
pub mod Card
pub mod Dashboard
pub mod Assets
