-- ===== src/Web/Middleware/Laws.antt =====
-- The status that is logged against the calls that the handler makes.
use mathlib.Core.List.{append_assoc, append-nil}
use tailhopper.Base.{subst, ℕ, Str, true, false, List, [], ◌∷◌, ◌++◌, ◌≡◌, refl, sym, ◌∙◌, arith}
use tailhopper.Web.Middleware.{
  Call, write_header, write, flush, ResponseWriter, new_response_writer, perform, perform_all,
}

-- The status of a response by the calls that made it: the first that is no flush decides.
abbrev pub status_of : List Call → ℕ
status_of [] = 200
status_of (write_header code ∷ cs) = code
status_of (write text ∷ cs) = 200
status_of (flush ∷ cs) = status_of cs

-- The calls but for the headers.
abbrev pub writes : List Call → List Call
writes [] = []
writes (write_header code ∷ cs) = writes cs
writes (write text ∷ cs) = write text ∷ writes cs
writes (flush ∷ cs) = flush ∷ writes cs

-- What is forwarded to the wrapped writer: all calls but the headers after another one or a write.
abbrev pub passed_on : List Call → List Call
passed_on [] = []
passed_on (flush ∷ cs) = flush ∷ passed_on cs
passed_on (write_header code ∷ cs) = write_header code ∷ writes cs
passed_on (write text ∷ cs) = write text ∷ writes cs

header-kept : (code : ℕ) (w : ResponseWriter) → w.written ≡ true → perform (write_header code) w ≡ w
unfolding perform
header-kept code w e = ground arith

write-kept :
    (text : Str) (w : ResponseWriter)
    → w.written ≡ true
    → (perform (write text) w).status_code ≡ w.status_code
unfolding perform
write-kept text w e = rw e refl

perform_all-written :
    (cs : List Call) (w : ResponseWriter)
    → w.written ≡ true
    → ((perform_all cs w).status_code ≡ w.status_code)
      × ((perform_all cs w).sent ≡ w.sent ++ writes cs)
unfolding perform_all perform
perform_all-written [] w e = (refl, sym (append-nil w.sent))
perform_all-written (write_header code ∷ cs) w e =
    subst
      (λ x.
        ((perform_all cs x).status_code ≡ w.status_code)
        × ((perform_all cs x).sent ≡ w.sent ++ writes cs))
      (sym (header-kept code w e)) (perform_all-written cs w e)
perform_all-written (write text ∷ cs) w e =
    let w' = perform (write text) w in
    let (s, t) = perform_all-written cs w' refl in
    (s ∙ write-kept text w e, t ∙ append_assoc w.sent (write text ∷ []) (writes cs))
perform_all-written (flush ∷ cs) w e =
    let w' = perform flush w in
    let (s, t) = perform_all-written cs w' e in
    (s, t ∙ append_assoc w.sent (flush ∷ []) (writes cs))

perform_all-unwritten :
    (cs : List Call) (w : ResponseWriter)
    → w.written ≡ false
    → w.status_code ≡ 200
    → ((perform_all cs w).status_code ≡ status_of cs)
      × ((perform_all cs w).sent ≡ w.sent ++ passed_on cs)
unfolding perform_all perform
perform_all-unwritten [] w e k = (k, sym (append-nil w.sent))
perform_all-unwritten (flush ∷ cs) w e k =
    let (s, t) = perform_all-unwritten cs (perform flush w) e k in
    (s, t ∙ append_assoc w.sent (flush ∷ []) (passed_on cs))
perform_all-unwritten (write_header code ∷ cs) w e k =
    let first : ResponseWriter = record {
      status_code = code;
      written = true;
      sent = w.sent ++ write_header code ∷ [];
    } in
    let (s, t) = perform_all-written cs first refl in
    rw e (s, t ∙ append_assoc w.sent (write_header code ∷ []) (writes cs))
perform_all-unwritten (write text ∷ cs) w e k =
    let first : ResponseWriter = record {
      status_code = 200;
      written = true;
      sent = w.sent ++ write text ∷ [];
    } in
    let (s, t) = perform_all-written cs first refl in
    rw e (s, t ∙ append_assoc w.sent (write text ∷ []) (writes cs))

-- Whatever calls a handler makes on the response writer, the status that is logged is the one of
-- the first call that is no flush, 200 if there is none or it is a write, and what is forwarded to
-- the wrapped writer is all calls but the headers that come after another one or a write.
pub perform_all_lem :
    (cs : List Call)
    → ((perform_all cs new_response_writer).status_code ≡ status_of cs)
      × ((perform_all cs new_response_writer).sent ≡ passed_on cs)
unfolding new_response_writer
perform_all_lem cs = perform_all-unwritten cs new_response_writer refl refl
