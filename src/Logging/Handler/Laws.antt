-- ===== src/Logging/Handler/Laws.antt =====
-- What reaches the handler that a `ContextHandler` wraps.
use tailhopper.Base.{◌≡◌, refl, Option-cases, inl, inr, List, [], ◌∷◌}
use tailhopper.Logging.Handler.{
  Context, LogRecord, SlogHandler, new_context_handler, context_handler, with_id, log, Derived,
  with_attrs, with_group, derive,
}

module _ {H R : Type 0} (i : SlogHandler H R) where
  derive-wrapped :
      (ds : List Derived) (h : H)
      → derive (context_handler i) ds (new_context_handler h) ≡ new_context_handler (derive i ds h)
  unfolding derive context_handler new_context_handler
  derive-wrapped [] h = refl
  derive-wrapped (with_attrs attrs ∷ ds) h = derive-wrapped ds (i.with_attrs h attrs)
  derive-wrapped (with_group name ∷ ds) h = derive-wrapped ds (i.with_group h name)

  with_id-level : (c : Context) (r : LogRecord) → (with_id c r).level ≡ r.level
  unfolding with_id
  with_id-level c r = elim (Option-cases c.request_id) [
    | inl e ↦ rw e refl
    | inr (id, e) ↦ rw e refl
  ]

  pub log_wrapped :
      (ds : List Derived) (h : H) (c : Context) (r : LogRecord) (sink : R)
      → log (context_handler i) (derive (context_handler i) ds (new_context_handler h)) c r sink
        ≡ log i (derive i ds h) c (with_id c r) sink
  unfolding log context_handler new_context_handler
  log_wrapped ds h c r sink = rw (derive-wrapped ds h, with_id-level c r) refl
