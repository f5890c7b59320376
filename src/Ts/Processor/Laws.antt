-- ===== src/Ts/Processor/Laws.antt =====
-- What `Process` makes of its operations: the change that it reports, and the transition it takes.
use tailhopper.Base.{◌≡◌, ◌∙◌, refl, Bool, true, false, ◌||◌, List, [], ◌∷◌, ◌++◌, All, arith}
use tailhopper.Ts.Ipn.{IpnState}
use tailhopper.Ts.Processor.{Op, IpnProcessor, run_always, run_one_of, process}

module _ {S V : Type 0} (view : S → V) where
  -- An operation that reports no change leaves the view alone.
  abbrev pub IsHonest : Op S → Type 0
  IsHonest op = (s : IpnState) (m : S) → (op s m).1 ≡ false → view (op s m).0 ≡ view m

  run_always_honest :
      (s : IpnState) (ops : List (Op S)) (m : S) (c : Bool)
      → All IsHonest ops
      → (run_always s ops m c).1 ≡ false
      → (c ≡ false) × (view (run_always s ops m c).0 ≡ view m)
  unfolding run_always
  run_always_honest s [] m c h e = (e, refl)
  run_always_honest s (op ∷ ops) m c h e =
      let (quiet, same) = run_always_honest s ops (op s m).0 ((op s m).1 || c) h.1 e in
      ground (arith, quiet, same, h.0 s m)

  run_one_of_honest :
      (s : IpnState) (ops : List (Op S)) (m : S) (c : Bool)
      → All IsHonest ops
      → (run_one_of s ops m c).1 ≡ false
      → (c ≡ false) × (view (run_one_of s ops m c).0 ≡ view m)
  unfolding run_one_of
  run_one_of_honest s [] m c h e = (e, refl)
  run_one_of_honest s (op ∷ ops) m c h e =
      ground (arith, run_one_of_honest s ops (op s m).0 c h.1, h.0 s m)

  pub process_honest :
      (p : IpnProcessor S) (m : S)
      → All IsHonest p.always_ops
      → All IsHonest p.one_of_ops
      → (process p m).1 ≡ false
      → view (process p m).0 ≡ view m
  unfolding process
  process_honest p m ha ho e =
      let a = run_always p.ipn_state p.always_ops m false in
      let (quiet, same) = run_one_of_honest p.ipn_state p.one_of_ops a.0 a.1 ho e in
      same ∙ (run_always_honest p.ipn_state p.always_ops m false ha quiet).1

-- The transitions before one that succeeds have no effect, those after it do not run.
pub run_one_of_first :
    {S : Type 0} (s : IpnState) (before after : List (Op S)) (op : Op S) (m m' : S) (c : Bool)
    → All (λ f. f s m ≡ (m, false)) before
    → op s m ≡ (m', true)
    → run_one_of s (before ++ op ∷ after) m c ≡ (m', true)
unfolding run_one_of
run_one_of_first s [] after op m m' c h e = rw e
run_one_of_first s (f ∷ before) after op m m' c h e =
    rw h.0 (run_one_of_first s before after op m m' c h.1 e)
