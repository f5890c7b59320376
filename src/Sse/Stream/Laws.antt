-- ===== src/Sse/Stream/Laws.antt =====
-- The browser reads the events that the server has written.
use tailhopper.Base.{
  ℤ, Str, str_eq, codes, is_empty, ◌≡◌, ◌≢◌, ◌⊎◌, inl, inr, refl, ap, ◌∙◌, false, List, [], ◌∷◌,
  ◌++◌, map, All, All-map, All-append, arith, ◌≤◌,
}
use mathlib.Core.List.{append_assoc}
use tailhopper.Base.Decimal.{print_int, print_int-All_above}
use tailhopper.Base.Lines.{lines_from, lines-first}
use tailhopper.Sse.{
  Woken, event, request_done, channel_closed, global_event, tailnet_event, write_sse_event, stream,
  serve_sse,
}
use tailhopper.Sse.Stream.{nothing_read, read_lines, read_stream}

-- No line ends in it, and it is not empty.
abbrev pub IsName : Str → Type 0
IsName s = All (λ c. c ≢ 10) s × (s ≢ [])

written_lines :
    (name rest : Str)
    → All (λ c. c ≢ 10) name
    → lines_from [] (write_sse_event name ++ rest)
      ≡ (codes "event: " ++ name) ∷ codes "data: update" ∷ [] ∷ lines_from [] rest
unfolding write_sse_event lines_from
written_lines name rest h =
    let middle : Str = 10 ∷ codes "data: update" in
    let last : Str = 10 ∷ 10 ∷ [] in
    ap (lines_from (codes "event: "))
      (append_assoc (name ++ middle) last rest ∙ append_assoc name middle (last ++ rest))
    ∙ lines-first (codes "event: ") name (codes "data: update" ++ 10 ∷ 10 ∷ rest) h

one_event :
    (name : Str) (more : List Str)
    → name ≢ []
    → read_lines nothing_read ((codes "event: " ++ name) ∷ codes "data: update" ∷ [] ∷ more)
      ≡ (name, codes "update") ∷ read_lines nothing_read more
unfolding read_lines str_eq
one_event name more ne = let named : is_empty name ≡ false = ground arith in rw named refl

written_event :
    (name rest : Str)
    → IsName name
    → read_stream (write_sse_event name ++ rest) ≡ (name, codes "update") ∷ read_stream rest
unfolding read_stream
written_event name rest (h, ne) =
    ap (read_lines nothing_read) (written_lines name rest h)
    ∙ one_event name (lines_from [] rest) ne

read_nothing : read_stream [] ≡ []
unfolding read_stream
read_nothing = refl

-- The events that come before the request ends or the channel is closed.
abbrev pub events_of : List Woken → List Str
events_of [] = []
events_of (event name ∷ more) = name ∷ events_of more
events_of (request_done ∷ more) = []
events_of (channel_closed ∷ more) = []

abbrev pub updates : List Str → List (Str × Str)
updates names = map (λ name. (name, codes "update")) names

read_events :
    (wakes : List Woken)
    → All IsName (events_of wakes)
    → read_stream (stream wakes) ≡ updates (events_of wakes)
unfolding stream
read_events [] h = read_nothing
read_events (request_done ∷ more) h = read_nothing
read_events (channel_closed ∷ more) h = read_nothing
read_events (event name ∷ more) h =
    written_event name (stream more) h.0
    ∙ ap (λ l. (name, codes "update") ∷ l) (read_events more h.1)

-- What the broadcaster sends: the event of a tailnet, or the global one.
abbrev pub IsEvent : Str → Type 0
IsEvent s = (s ≡ global_event) ⊎ ((id : ℤ) × (s ≡ tailnet_event id))

event-IsName : (s : Str) → IsEvent s → IsName s
unfolding tailnet_event
event-IsName s (inl e) = rw e (omega arith, λ q. cc)
event-IsName s (inr (id, e)) = rw e (
  All-append _ (codes "tailnet-") (print_int id) (omega arith)
      (no_line_end (print_int id) (print_int-All_above id)),
  λ q. cc,
)
  where
    no_line_end : (t : Str) → All (λ c. 45 ≤ c) t → All (λ c. c ≢ 10) t
    no_line_end t = All-map _ _ (λ c h q. omega (arith, h, q)) t

-- If every event that wakes the loop of `ServeSSE` before the request ends or the channel is closed
-- is the global one or that of a tailnet, then what a browser reads from the body, after the
-- standard for event streams, is the global event and then these events, in order, each with the
-- data `update`.
pub read-serve_sse :
    (wakes : List Woken)
    → All IsEvent (events_of wakes)
    → read_stream (serve_sse wakes) ≡ updates (global_event ∷ events_of wakes)
unfolding serve_sse
read-serve_sse wakes h =
    written_event global_event (stream wakes) (event-IsName global_event (inl refl))
    ∙ ap (λ l. (global_event, codes "update") ∷ l)
        (read_events wakes (All-map IsEvent IsName event-IsName (events_of wakes) h))
