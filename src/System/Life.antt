-- ===== src/System/Life.antt =====
-- The registry over restarts of the program: a new process reads the file that the last one left.
use tailhopper.Base.{
  ℕ, codes, get_elem?, Option-cases, Bool-cases, ℤ, pos, max_int, true, false, Str, ◌<ℤ◌, ◌≡◌, ◌≢◌,
  ◌⊎◌, inl, inr, refl, sym, subst, ap, ◌∙◌, Option, none, some, List, [], ◌∷◌, All, Pairwise, arith,
}
use tailhopper.Base.Maps.{lookup}
use tailhopper.Ts.State.{Error}
use tailhopper.Ts.Host.{Host}
use tailhopper.Registry.Config.{
  PersistedTailnet, Broadcaster, File, missing, unreadable, invalid, holds, Disk,
}
use tailhopper.Registry.World.{World, register, register_all, new_registry, list}
use tailhopper.Registry.Changes.{Outside}
use tailhopper.Pac.{handler}
use tailhopper.Ts.Start.{StartCalls}
use tailhopper.Registry.Running.{run_at, restore_at, restore_all, restore_enabled_tailnets}
use tailhopper.Registry.Running.Restore.{is_due, round, round-idle}
use tailhopper.Ts.Tailnet.{Tailnet, snapshot}
use tailhopper.Main.{serves, main}
use tailhopper.System.{Action, starts, act, act_at, Step, acts, here}
use tailhopper.System.Inv.{HasDistinctKeys}
use tailhopper.System.Laws.{IsJoined, Step-IsJoined}
use tailhopper.System.Boot.{CanJoin, register_all-IsJoined}
use tailhopper.System.File.{IsLoadable, IsSafe, HasRoom}
use tailhopper.System.Saved.{Step-IsSafe, succ-HasRoom}
use tailhopper.System.Pac.{pac_unambiguous}

module _ {B : Type 0} where
  register_all-HasRoom :
      (cs : List PersistedTailnet) (w : World B)
      → All (λ c. c.id <ℤ pos max_int) cs
      → HasRoom w.store.registry.next_id
      → HasRoom (register_all cs w).store.registry.next_id
  unfolding register_all register
  register_all-HasRoom [] w below room = room
  register_all-HasRoom (c ∷ cs) w below room =
      register_all-HasRoom cs (register c w) below.1
        (ground (arith, room, succ-HasRoom c.id below.0))

  register_all-disk :
      (cs : List PersistedTailnet) (w : World B) → (register_all cs w).store.disk ≡ w.store.disk
  unfolding register_all register
  register_all-disk [] w = refl
  register_all-disk (c ∷ cs) w = register_all-disk cs (register c w)

  -- A registry without entries.
  blank : Str → Disk → B → Host → World B
  blank path disk events host = record {
    store = record {
      registry = record { path = path; next_id = pos 1; tailnets = [] };
      disk = disk;
      events = events;
    };
    heap = [];
    host = host;
  }

  blank-IsJoined :
      (path : Str) (disk : Disk) (events : B) (host : Host) → IsJoined (blank path disk events host)
  unfolding blank HasDistinctKeys lookup
  blank-IsJoined path disk events host = record {
    linked = λ k r e. cc;
    keyed = λ k r e. cc;
    owner = λ a c k p q e f. cc;
    below = λ a k p e. cc;
    distinct = tt;
    unique = tt;
  }

  All-CanJoin-blank :
      (path : Str) (disk : Disk) (events : B) (host : Host) (cs : List PersistedTailnet)
      → All (CanJoin (blank path disk events host)) cs
  unfolding blank
  All-CanJoin-blank path disk events host [] = tt
  All-CanJoin-blank path disk events host (c ∷ cs) =
      (record { fresh = λ a p e. cc; free = inr tt }, All-CanJoin-blank path disk events host cs)

  record IsSound (w : World B) : Type 0 where
    joined : IsJoined w
    safe : IsSafe w.store

  module _ (path : Str) (disk : Disk) (events : B) (host : Host) where
    missing_starts :
        disk.file ≡ missing
        → new_registry path disk events host ≡ (none, blank path disk events host)
    unfolding new_registry blank
    missing_starts e = simp e

    unreadable_starts :
        (x : Error)
        → (disk.file ≡ unreadable x) ⊎ (disk.file ≡ invalid x)
        → (new_registry path disk events host).0 ≡ some x
    unfolding new_registry
    unreadable_starts x (inl e) = simp e
    unreadable_starts x (inr e) = simp e

    holds_starts :
        (cs : List PersistedTailnet)
        → disk.file ≡ holds cs
        → new_registry path disk events host ≡ (none, register_all cs (blank path disk events host))
    unfolding new_registry blank
    holds_starts cs e = simp e

    -- A process that comes up has a sound world.
    started-IsSound :
        (f : File)
        → disk.file ≡ f
        → IsLoadable f
        → (new_registry path disk events host).0 ≡ none
        → IsSound (new_registry path disk events host).1
    unfolding blank
    started-IsSound missing e ok up =
        subst (λ x. IsSound x.1) (sym (missing_starts e))
          (record {
            joined = blank-IsJoined path disk events host;
            safe = record { room = omega arith; loadable = subst IsLoadable (sym e) tt };
          })
    started-IsSound (unreadable x) e ok up =
        let f = unreadable_starts x (inl e) in absurd (cc (f, up))
    started-IsSound (invalid x) e ok up = let f = unreadable_starts x (inr e) in absurd (cc (f, up))
    started-IsSound (holds cs) e ok up =
        let w = blank path disk events host in
        let below = ok.room in
        subst (λ x. IsSound x.1) (sym (holds_starts cs e))
          (record {
            joined =
                register_all-IsJoined cs w ok (All-CanJoin-blank path disk events host cs)
                  (blank-IsJoined path disk events host);
            safe = record {
              room = register_all-HasRoom cs w below (omega arith);
              loadable = subst IsLoadable (sym (ap (λ d. d.file) (register_all-disk cs w) ∙ e)) ok;
            };
          })

module _ {B : Type 0} (b : Option (Broadcaster B)) (o : Outside) where
  act_at-IsSound : (x : Action) (a : ℕ) (w : World B) → IsSound w → IsSound (act_at b o x a w)
  act_at-IsSound x a w v = record {
    joined = Step-IsJoined b o (acts x a) v.joined;
    safe = Step-IsSafe b o (acts x a) v.joined v.safe;
  }

  round_starts :
      (calls : ℤ → StartCalls) (a : ℕ) (t : Tailnet) (w : World B)
      → is_due t ≡ true
      → get_elem? w.heap a ≡ some t
      → round b calls a w ≡ act_at b o (starts (calls t.id)) a w
  unfolding restore_at snapshot run_at act_at act
  round_starts calls a t w d e = rw e (rw d (rw e refl))

  round_skips :
      (a : ℕ) (w : World B) (calls : ℤ → StartCalls)
      → get_elem? w.heap a ≡ none
      → round b calls a w ≡ w
  unfolding restore_at
  round_skips a w calls e = rw e refl

  -- A round of the loop is a start of that tailnet, or nothing.
  round-IsSound :
      (calls : ℤ → StartCalls) (a : ℕ) (w : World B) → IsSound w → IsSound (round b calls a w)
  round-IsSound calls a w v = elim (Option-cases (get_elem? w.heap a)) [
    | inl e ↦ subst IsSound (sym (round_skips a w calls e)) v
    | inr (t, e) ↦ elim (Bool-cases (is_due t)) [
      | inl d ↦
          subst IsSound (sym (round_starts calls a t w d e))
            (act_at-IsSound (starts (calls t.id)) a w v)
      | inr d ↦ subst IsSound (sym (round-idle b calls t a w d e)) v
    ]
  ]

  restore_all-IsSound :
      (calls : ℤ → StartCalls) (l : List ℕ) (w : World B)
      → IsSound w
      → IsSound (restore_all b calls l w)
  unfolding restore_all
  restore_all-IsSound calls [] w v = v
  restore_all-IsSound calls (a ∷ l) w v =
      restore_all-IsSound calls l (round b calls a w) (round-IsSound calls a w v)

  -- A program that comes to serve does so in a sound world.
  main-IsSound :
      (calls : ℤ → StartCalls) (port addr : Str) (disk : Disk) (events : B) (host : Host)
      (w : World B)
      → IsLoadable disk.file
      → main b false calls port disk events host ≡ serves addr w
      → IsSound w
  unfolding main restore_enabled_tailnets
  main-IsSound calls port addr disk events host w ok e =
      let r = new_registry (codes "./tailhopper.json") disk events host in
      elim (Option-cases r.0) [
        | inl f ↦
            let v =
              started-IsSound (codes "./tailhopper.json") disk events host disk.file refl ok f in
            let same : restore_enabled_tailnets b calls r.1 ≡ w = ground (arith, e, f) in
            subst IsSound same (restore_all-IsSound calls (list r.1) r.1 v)
        | inr (x, f) ↦ absurd (ground (arith, e, f))
      ]

-- Steps of one process, and new processes that come to serve on the file that the last one left.
pub data Life {B : Type 0} (b : Option (Broadcaster B)) (o : Outside) (w : World B)
    : World B → Type 0 where
  born : Life b o w w
  goes : {p q : World B} → Life b o w p → Step b o p q → Life b o w q
  restarts :
      {p q : World B} (calls : ℤ → StartCalls) (port addr : Str) (events : B) (host : Host)
      → Life b o w p
      → main b false calls port p.store.disk events host ≡ serves addr q
      → Life b o w q

module _ {B : Type 0} (b : Option (Broadcaster B)) (o : Outside) where
  Life-IsSound : {w w' : World B} → IsSound w → Life b o w w' → IsSound w'
  Life-IsSound v born = v
  Life-IsSound v (goes l s) =
      let u = Life-IsSound v l in
      record { joined = Step-IsJoined b o s u.joined; safe = Step-IsSafe b o s u.joined u.safe }
  Life-IsSound v (restarts {p} {q} calls port addr events host l e) =
      let u = Life-IsSound v l in
      main-IsSound b o calls port addr p.store.disk events host q u.safe.loadable e

  -- If the config file is not a list, or a list with distinct ids below the largest `int` and
  -- distinct suffixes, and the program comes to serve on it, then after any steps of the registry
  -- and its tailnets, each add at a next id below the largest `int`, and any restarts after which
  -- the program comes to serve again on the file that was left, no two suffixes that the PAC file
  -- is written for are the same, and the file is again such a file.
  pub pac_over_restarts :
      (calls : ℤ → StartCalls) (port addr : Str) (disk : Disk) (events : B) (host : Host)
      (w w' : World B)
      → IsLoadable disk.file
      → main b false calls port disk events host ≡ serves addr w
      → Life b o w w'
      → Pairwise (λ s t. t ≢ s) (handler w').1 × IsLoadable w'.store.disk.file
  pac_over_restarts calls port addr disk events host w w' ok e l =
      let v = Life-IsSound (main-IsSound b o calls port addr disk events host w ok e) l in
      (pac_unambiguous b o w' w' v.joined here, v.safe.loadable)
