-- ===== src/Web/Middleware/Logged/Laws.antt =====
-- What is logged of a request.
use tailhopper.Base.{Str, [], ◌∷◌}
use tailhopper.Logging.Handler.{
  Context, LogRecord, SlogHandler, new_context_handler, context_handler, log, add_attrs, id_attr,
}

module _ {H R : Type 0} (i : SlogHandler H R) (h : H) where
  -- What the default logger of `main` does with a record.
  abbrev pub default_log : Context → LogRecord → R → R
  default_log c r sink = log (context_handler i) (new_context_handler h) c r sink

  -- A record that the wrapped handler writes with the id of the request.
  abbrev pub written_with : Str → Context → LogRecord → R → R
  written_with id c r sink = (i.handle h c (add_attrs r (id_attr id ∷ [])) sink).0
