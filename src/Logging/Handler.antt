-- ===== src/Logging/Handler.antt =====
-- `ContextHandler` of internal/logging/logging.go, around any handler of log/slog.
pub mod Laws
use tailhopper.Base.{
  ℤ, pos, negsuc, Str, codes, Bool, Option, none, some, List, [], ◌∷◌, ◌++◌, if◌then◌else◌,
}
use tailhopper.Ts.State.{Error}
use tailhopper.Logging.{LogAttr, text}

-- `slog.LevelDebug` and so on
abbrev pub level_debug : ℤ
level_debug = negsuc 3

abbrev pub level_info : ℤ
level_info = pos 0

abbrev pub level_warn : ℤ
level_warn = pos 4

abbrev pub level_error : ℤ
level_error = pos 8

-- `ctx.Value(requestIDKey{})`
pub record Context : Type 0 where
  pub request_id : Option Str

-- `WithRequestID`
unfoldable pub with_request_id : Str → Context → Context
with_request_id id c = record c { request_id = some id }

pub record LogRecord : Type 0 where
  pub level : ℤ
  pub message : Str
  pub attrs : List LogAttr

-- `slog.Handler`, for handlers `H` that write to an `R`.
pub record SlogHandler (H R : Type 0) : Type 0 where
  pub enabled : H → Context → ℤ → Bool
  pub handle : H → Context → LogRecord → R → R × Option Error
  pub with_attrs : H → List LogAttr → H
  pub with_group : H → Str → H

pub record ContextHandler (H : Type 0) : Type 0 where
  pub handler : H

-- `NewContextHandler`
unfoldable pub new_context_handler : {H : Type 0} → H → ContextHandler H
new_context_handler h = record { handler = h }

-- `r.AddAttrs`
abbrev pub add_attrs : LogRecord → List LogAttr → LogRecord
add_attrs r attrs = record r { attrs = r.attrs ++ attrs }

abbrev pub id_attr : Str → LogAttr
id_attr id = record { key = codes "request_id"; value = text id }

-- The record with the id of the request, if the context has one.
unfoldable pub with_id : Context → LogRecord → LogRecord
with_id c r = elim c.request_id [ none ↦ r | some id ↦ add_attrs r (id_attr id ∷ []) ]

module _ {H R : Type 0} (i : SlogHandler H R) where
  -- The methods of `ContextHandler`.
  unfoldable pub context_handler : SlogHandler (ContextHandler H) R
  unfolding with_id new_context_handler
  context_handler = record {
    enabled = λ h. i.enabled h.handler;
    handle = λ h c r. i.handle h.handler c (with_id c r);
    with_attrs = λ h attrs. new_context_handler (i.with_attrs h.handler attrs);
    with_group = λ h name. new_context_handler (i.with_group h.handler name);
  }

-- What the methods of a `slog.Logger` do with a record; the error of the handler is dropped.
unfoldable pub log : {H R : Type 0} → SlogHandler H R → H → Context → LogRecord → R → R
log i h c r sink = if i.enabled h c r.level then (i.handle h c r sink).0 else sink

-- `logger.With` and `logger.WithGroup`
pub data Derived : Type 0 where
  with_attrs : List LogAttr → Derived
  with_group : Str → Derived

derive_one : {H R : Type 0} → SlogHandler H R → Derived → H → H
derive_one i (with_attrs attrs) h = i.with_attrs h attrs
derive_one i (with_group name) h = i.with_group h name

unfoldable pub derive : {H R : Type 0} → SlogHandler H R → List Derived → H → H
unfolding derive_one
derive i [] h = h
derive i (d ∷ ds) h = derive i ds (derive_one i d h)
