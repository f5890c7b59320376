-- ===== src/Web/Routes/Laws.antt =====
-- Requests of any kind, one after the other.
use tailhopper.Base.{◌≡◌, refl, Str, Option, some, List, [], ◌∷◌}
use tailhopper.Registry.Config.{Broadcaster}
use tailhopper.Registry.World.{World}
use tailhopper.Registry.Changes.{Outside}
use tailhopper.Web.Handlers.Wired.{IsSound}
use tailhopper.Web.Handlers.Answers.{
  Answered, start_handler-Answered, stop_handler-Answered, delete_handler-Answered,
}
use tailhopper.Web.Handlers.Adding.{add_tailnet_handler-Answered}
use tailhopper.Web.Routes.{
  Request, add_request, start_request, stop_request, delete_request, page_request, page, serve,
  serve_all,
}

module _ {B : Type 0} (b : Broadcaster B) (toast : Str → Str → Option Str) (o : Outside) where
  serve-Answered : (q : Request) (w : World B) → IsSound w → Answered (serve b toast o q w)
  unfolding serve
  serve-Answered (add_request a c method) w v = add_tailnet_handler-Answered b o a c method w v
  serve-Answered (start_request c id) w v = start_handler-Answered b c id w v
  serve-Answered (stop_request c id) w v = stop_handler-Answered b c id w v
  serve-Answered (delete_request c id) w v = delete_handler-Answered b toast c id w v
  serve-Answered (page_request p addr q) w v = record {
    world = w;
    response = page p addr q w;
    answered = refl;
    sound = v;
  }

  -- If every id of the registry stands for a tailnet with that id in the heap, and at most one
  -- entry has no suffix, then after any sequence of requests for pages, and to add, start, stop and
  -- delete tailnets, with any ids and any outcome of the external calls, each run to its end before
  -- the next, every request has been answered without a nil dereference, and both still hold.
  pub serve_all-IsSound :
      (qs : List Request) (w : World B)
      → IsSound w
      → (w' : World B) × (serve_all b toast o qs w ≡ some w') × IsSound w'
  unfolding serve_all
  serve_all-IsSound [] w v = (w, refl, v)
  serve_all-IsSound (q ∷ qs) w v =
      let a = serve-Answered q w v in
      let (w', e, s) = serve_all-IsSound qs a.world a.sound in (w', rw a.answered e, s)
