-- ===== src/Types/Capture/Marked.antt =====
-- types/scope.go: `markCapture` captures a variable in exactly the blocks between its use and its
-- definition.
use pea_old.Prelude.{
  ℕ, Bool, true, false, ◌||◌, List, [], ◌∷◌, ◌==◌, elem, In, ◌≡◌, ◌↔◌, ◌⊎◌, refl, sym, arith,
  Bool-cases, inl, inr, IsUnique, IsUnique-concat, elem-concat, ◌&&◌,
}
use mathlib.Core.Path.{subst}
use pea_old.Types.Scope.{Level, block_level}
use pea_old.Types.Capture.{VarDef, Captures, add_capture, defines, mark_from, mark_capture}

abbrev no_block : Level → Bool
no_block (block_level b) = false
no_block _ = true

-- A block of the scope is crossed if neither it nor a block inside it defines the variable.
pub data Crosses (d : VarDef) : List Level → ℕ → Type 0 where
  here : {b : ℕ} {x : List Level} → defines b d ≡ false → Crosses d (block_level b ∷ x) b
  outside :
      {b c : ℕ} {x : List Level}
      → defines b d ≡ false
      → Crosses d x c
      → Crosses d (block_level b ∷ x) c
  beyond :
      {l : Level} {c : ℕ} {x : List Level} → no_block l ≡ true → Crosses d x c → Crosses d (l ∷ x) c

elem-add_capture :
    (b v c w : ℕ) (caps : Captures)
    → elem w (add_capture b v caps c) ≡ (elem w (caps c) || ((c == b) && (w == v)))
unfolding add_capture
elem-add_capture b v c w caps = elim (Bool-cases (c == b)) [
  | inr other ↦ rw other (ground arith)
  | inl same ↦
      let block : c ≡ b = ground arith in
      rw (same, block)
        (elim (Bool-cases (elem v (caps b))) [
          | inl there ↦ rw there (elim (Bool-cases (w == v)) [
            | inl y ↦ let is_v : w ≡ v = ground arith in rw (is_v, there) refl
            | inr n ↦ rw n (ground arith)
          ])
          | inr n ↦ rw (n, elem-concat w v (caps b)) refl
        ])
]

from_added :
    (b v c w : ℕ) (caps : Captures)
    → In w (add_capture b v caps c)
    → In w (caps c) ⊎ ((c ≡ b) × (w ≡ v))
from_added b v c w caps i = elim (Bool-cases (elem w (caps c))) [
  | inl there ↦ inl there
  | inr n ↦
      let both : ((c == b) && (w == v)) ≡ true = ground (arith, elem-add_capture b v c w caps) in
      inr (ground arith, ground arith)
]

still_added : (b v c w : ℕ) (caps : Captures) → In w (caps c) → In w (add_capture b v caps c)
still_added b v c w caps i = ground (arith, elem-add_capture b v c w caps)

now_added : (b v : ℕ) (caps : Captures) → In v (add_capture b v caps b)
now_added b v caps = ground (arith, elem-add_capture b v b v caps)

add_capture-IsUnique :
    (b v : ℕ) (caps : Captures)
    → ((c : ℕ) → IsUnique (caps c))
    → (c : ℕ) → IsUnique (add_capture b v caps c)
unfolding add_capture
add_capture-IsUnique b v caps h c = elim (Bool-cases (c == b)) [
  | inr other ↦ rw other (h c)
  | inl same ↦ rw same (elim (Bool-cases (elem v (caps b))) [
    | inl there ↦ rw there (h b)
    | inr n ↦ rw n (IsUnique-concat v (caps b) (h b) n)
  ])
]

module _ (v : ℕ) (d : VarDef) where
  sound :
      (captured : Bool) (x : List Level) (caps : Captures) (c w : ℕ)
      → In w ((mark_from v d captured x caps).captures c)
      → In w (caps c) ⊎ ((w ≡ v) × Crosses d x c)
  unfolding mark_from
  sound captured [] caps c w i = inl i
  sound captured (block_level b ∷ x) caps c w i =
      by_test (sound true x (add_capture b v caps) c w) (Bool-cases (defines b d))
    where
      cross :
          defines b d ≡ false
          → In w (add_capture b v caps c) ⊎ ((w ≡ v) × Crosses d x c)
          → In w (caps c) ⊎ ((w ≡ v) × Crosses d (block_level b ∷ x) c)
      cross n (inr (is_v, far)) = inr (is_v, outside n far)
      cross n (inl added) = elim (from_added b v c w caps added) [
        | inl old ↦ inl old
        | inr (block, is_v) ↦ inr (is_v, subst (Crosses d (block_level b ∷ x)) (sym block) (here n))
      ]

      by_test :
          (In w ((mark_from v d true x (add_capture b v caps)).captures c)
            → In w (add_capture b v caps c) ⊎ ((w ≡ v) × Crosses d x c))
          → (defines b d ≡ true) ⊎ (defines b d ≡ false)
          → In w (caps c) ⊎ ((w ≡ v) × Crosses d (block_level b ∷ x) c)
      by_test ih (inl y) = inl (rw y at i)
      by_test ih (inr n) = cross n (ih (rw n at i))
  sound captured (l ∷ x) caps c w i = elim (sound captured x caps c w i) [
    | inl old ↦ inl old
    | inr (is_v, far) ↦ inr (is_v, beyond refl far)
  ]

  keeps :
      (captured : Bool) (x : List Level) (caps : Captures) (c w : ℕ)
      → In w (caps c)
      → In w ((mark_from v d captured x caps).captures c)
  unfolding mark_from
  keeps captured [] caps c w i = i
  keeps captured (block_level b ∷ x) caps c w i =
      let outer = keeps true x (add_capture b v caps) c w (still_added b v c w caps i) in
      elim (Bool-cases (defines b d)) [ inl y ↦ rw y i | inr n ↦ rw n outer ]
  keeps captured (l ∷ x) caps c w i = keeps captured x caps c w i

  stays : (x : List Level) (caps : Captures) → (mark_from v d true x caps).captured ≡ true
  unfolding mark_from
  stays [] caps = refl
  stays (block_level b ∷ x) caps =
      let outer = stays x (add_capture b v caps) in
      elim (Bool-cases (defines b d)) [ inl y ↦ rw y refl | inr n ↦ rw n outer ]
  stays (l ∷ x) caps = stays x caps

  mark_from-beyond :
      (captured : Bool) (l : Level) (x : List Level) (caps : Captures)
      → no_block l ≡ true
      → mark_from v d captured (l ∷ x) caps ≡ mark_from v d captured x caps
  unfolding mark_from
  mark_from-beyond captured (block_level b) x caps e = cc
  mark_from-beyond captured other x caps e = refl

  complete :
      (captured : Bool) (x : List Level) (caps : Captures) (c : ℕ)
      → Crosses d x c
      → (In v ((mark_from v d captured x caps).captures c))
        × ((mark_from v d captured x caps).captured ≡ true)
  unfolding mark_from
  complete captured _ caps _ (here {b} {x} n) =
      rw n (
        keeps true x (add_capture b v caps) b v (now_added b v caps),
        stays x (add_capture b v caps),
      )
  complete captured _ caps _ (outside {b} {c} {x} n far) =
      rw n (complete true x (add_capture b v caps) c far)
  complete captured _ caps _ (beyond {l} {c} {x} plain far) =
      rw (mark_from-beyond captured l x caps plain) (complete captured x caps c far)

  unique :
      (captured : Bool) (x : List Level) (caps : Captures)
      → ((c : ℕ) → IsUnique (caps c))
      → (c : ℕ) → IsUnique ((mark_from v d captured x caps).captures c)
  unfolding mark_from
  unique captured [] caps h c = h c
  unique captured (block_level b ∷ x) caps h c =
      let outer = unique true x (add_capture b v caps) (add_capture-IsUnique b v caps h) c in
      elim (Bool-cases (defines b d)) [ inl y ↦ rw y (h c) | inr n ↦ rw n outer ]
  unique captured (l ∷ x) caps h c = unique captured x caps h c

  -- A variable is said to be captured only if a block is crossed.
  found_crossing :
      (x : List Level) (caps : Captures)
      → (mark_from v d false x caps).captured ≡ true
      → (c : ℕ) × Crosses d x c
  unfolding mark_from
  found_crossing [] caps e = cc
  found_crossing (block_level b ∷ x) caps e = elim (Bool-cases (defines b d)) [
    | inl y ↦ absurd (impossible (rw y at e))
    | inr n ↦ (b, here n)
  ]
    where
      impossible : false ≡ true → ⊥
      impossible e = cc
  found_crossing (l ∷ x) caps e = let (c, far) = found_crossing x caps e in (c, beyond refl far)

  -- `markCapture` of a variable that is no module's value and no case of a type adds it to the
  -- captures of exactly the blocks that stand between the scope and the block that defines it, and
  -- says that it is captured exactly if there is one; each variable stands once, as before.
  pub mark_capture_lem :
      (x : List Level) (caps : Captures)
      → (d.in_val || d.in_case) ≡ false
      → ((c : ℕ) → IsUnique (caps c))
      → ((c w : ℕ)
          → In w ((mark_capture v d x caps).captures c)
            ↔ (In w (caps c) ⊎ ((w ≡ v) × Crosses d x c)))
        × (((mark_capture v d x caps).captured ≡ true) ↔ ((c : ℕ) × Crosses d x c))
        × ((c : ℕ) → IsUnique ((mark_capture v d x caps).captures c))
  unfolding mark_capture
  mark_capture_lem x caps local h = rw local (
    (λ c w. (
      sound false x caps c w,
      λ i. elim i [
        | inl old ↦ keeps false x caps c w old
        | inr (is_v, far) ↦
            subst (λ u. In u ((mark_from v d false x caps).captures c)) (sym is_v)
              (complete false x caps c far).0
      ],
    )),
    (found_crossing x caps, λ far. (complete false x caps far.0 far.1).1),
    unique false x caps h,
  )
