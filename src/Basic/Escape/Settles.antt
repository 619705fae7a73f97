-- ===== src/Basic/Escape/Settles.antt =====
-- basic/escape.go: the first loop of `moveAllocsToStack` ends, and marks all that it may.
use pea_old.Prelude.{
  ℕ, zero, suc, ◌<◌, Bool, true, false, List, [], ◌∷◌, Option, some, ◌≡◌, refl, sym, ap, ◌∙◌, arith,
  In, In-head, In-tail, In-cons_cases, inl, inr, ◌⊎◌, if◌then◌else◌,
}
use mathlib.Core.Path.{subst}
use pea_old.Basic.Ir.{Block}
use pea_old.Basic.Types.{Ty}
use pea_old.Basic.Escape.{◌>>=◌, Marking, is_markable, mark_stmts, mark_blocks, again, mark_all}
use pea_old.Basic.Escape.Count.{count, stmts_of, In-append_cases, In-append_left, In-append_right}
use pea_old.Basic.Escape.Round.{
  IsSafe, Progress, quiet, moved, Ends, join, mark_if-Ends, not-In-nil,
}

module _ (ty : ℕ → Ty) (has_ret : ℕ → Bool) (all : List ℕ) where
  nothing-Ends : (w : Marking) → IsSafe ty has_ret w.heap → Ends ty has_ret all [] w (some w)
  nothing-Ends w ok = record {
    result = w;
    run = refl;
    safe = ok;
    blocks = refl;
    progress = quiet refl (λ s i. absurd (not-In-nil ty has_ret s i));
  }

  -- One part after the other.
  both-Ends :
      (xs ys zs : List ℕ) (w : Marking) (r : Option Marking) (k : Marking → Option Marking)
      → ((s : ℕ) → In s zs → In s xs ⊎ In s ys)
      → Ends ty has_ret all xs w r
      → ((v : Marking)
          → IsSafe ty has_ret v.heap
          → v.heap.blocks ≡ w.heap.blocks
          → Ends ty has_ret all ys v (k v))
      → Ends ty has_ret all zs w (r >>= k)
  both-Ends xs ys zs w r k split first rest =
      let second = rest first.result first.safe first.blocks in
      record {
        result = second.result;
        run = rw (first.run) second.run;
        safe = second.safe;
        blocks = second.blocks ∙ first.blocks;
        progress =
            join ty has_ret all xs ys zs w first.result second.result split first.progress
              second.progress;
      }

  mark_stmts-Ends :
      (later : Bool) (ss : List ℕ) (w : Marking)
      → ((s : ℕ) → In s ss → In s all)
      → IsSafe ty has_ret w.heap
      → Ends ty has_ret all ss w (mark_stmts ty has_ret later ss w)
  unfolding mark_stmts
  mark_stmts-Ends later [] w among ok = nothing-Ends w ok
  mark_stmts-Ends later (s ∷ ss) w among ok =
      both-Ends (s ∷ []) ss (s ∷ ss) w _ (mark_stmts ty has_ret later ss)
        (λ t i. elim (In-cons_cases t s ss i) [
          | inl same ↦ inl (rw same (In-head s []))
          | inr tail ↦ inr tail
        ])
        (mark_if-Ends ty has_ret all later s w _ (among s (In-head s ss)) ok refl)
        (λ v safe same. mark_stmts-Ends later ss v (λ t i. among t (In-tail t s ss i)) safe)

  mark_blocks-Ends :
      (blocks : ℕ → Block) (later : Bool) (bs : List ℕ) (w : Marking)
      → w.heap.blocks ≡ blocks
      → ((s : ℕ) → In s (stmts_of blocks bs) → In s all)
      → IsSafe ty has_ret w.heap
      → Ends ty has_ret all (stmts_of blocks bs) w (mark_blocks ty has_ret later bs w)
  unfolding mark_blocks stmts_of
  mark_blocks-Ends blocks later [] w e among ok = nothing-Ends w ok
  mark_blocks-Ends blocks later (b ∷ bs) w e among ok =
      subst
        (λ ss.
          Ends ty has_ret all (stmts_of blocks (b ∷ bs)) w
            (mark_stmts ty has_ret later ss w >>= λ v. mark_blocks ty has_ret true bs v))
        (sym (ap (λ f. (f b).stmts) e))
        (both-Ends (blocks b).stmts (stmts_of blocks bs) _ w _ (mark_blocks ty has_ret true bs)
          (λ t i. In-append_cases t (blocks b).stmts (stmts_of blocks bs) i)
          (mark_stmts-Ends later (blocks b).stmts w
            (λ t i. among t (In-append_left t (blocks b).stmts (stmts_of blocks bs) i)) ok)
          (λ v safe same.
            mark_blocks-Ends blocks true bs v (same ∙ e)
              (λ t i. among t (In-append_right t (blocks b).stmts (stmts_of blocks bs) i)) safe))

module _ (ty : ℕ → Ty) (has_ret : ℕ → Bool) where
  -- The first loop stops where nothing is left that it may mark.
  abbrev Settles : List ℕ → Option Marking → Type 0
  Settles all r =
      (v : Marking) × (r ≡ some v)
      × ((s : ℕ) → In s all → is_markable ty has_ret v.heap s ≡ some false)

  again-Settles :
      (all : List ℕ) (w v : Marking) (rest : Option Marking)
      → w.changed ≡ false
      → Progress ty has_ret all all w v
      → (v.changed ≡ true → count v.heap all < count w.heap all → Settles all rest)
      → Settles all (again ty has_ret v rest)
  again-Settles all w v rest start (quiet same markable) later =
      let unchanged : v.changed ≡ false = ap (λ m. m.changed) same ∙ start in
      (
        v,
        ap (λ c. if c then rest else some v) unchanged,
        λ s i. subst (λ m. is_markable ty has_ret m.heap s ≡ some false) (sym same) (markable s i),
      )
  again-Settles all w v rest start (moved changed less) later =
      subst (λ c. Settles all (if c then rest else some v)) (sym changed) (later changed less)

  settles :
      (fuel : ℕ) (bs : List ℕ) (blocks : ℕ → Block) (w : Marking)
      → w.heap.blocks ≡ blocks
      → IsSafe ty has_ret w.heap
      → count w.heap (stmts_of blocks bs) < fuel
      → Settles (stmts_of blocks bs) (mark_all ty has_ret fuel bs w)
  unfolding mark_all
  settles zero bs blocks w e ok enough = absurd (omega arith)
  settles (suc fuel) bs blocks w e ok enough =
      let all = stmts_of blocks bs in
      let w0 = record w { changed = false } in
      let round = mark_blocks-Ends ty has_ret all blocks false bs w0 e (λ s i. i) ok in
      let v = round.result in
      subst (λ r. Settles all (r >>= λ m. again ty has_ret m (mark_all ty has_ret fuel bs m)))
        (sym round.run)
        (again-Settles all w0 v (mark_all ty has_ret fuel bs v) refl round.progress (λ changed less.
          settles fuel bs blocks v (round.blocks ∙ e) round.safe (omega (arith, less, enough))))

  -- Where no check of a user panics, and with fuel above the number of allocs that are not on the
  -- stack, the first loop of `moveAllocsToStack` ends, and every alloc of the blocks is then on the
  -- stack or escapes.
  pub mark_all-Settles :
      (fuel : ℕ) (bs : List ℕ) (w : Marking)
      → IsSafe ty has_ret w.heap
      → count w.heap (stmts_of w.heap.blocks bs) < fuel
      → (v : Marking) × (mark_all ty has_ret fuel bs w ≡ some v)
        × ((s : ℕ)
            → In s (stmts_of w.heap.blocks bs)
            → is_markable ty has_ret v.heap s ≡ some false)
  mark_all-Settles fuel bs w ok enough = settles fuel bs w.heap.blocks w refl ok enough
