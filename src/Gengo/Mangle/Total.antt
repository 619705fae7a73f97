-- ===== src/Gengo/Mangle/Total.antt =====
-- gengo/mangle.go: the demanglers on any input.
use pea_old.Prelude.{
  ℕ, zero, suc, ◌+◌, ◌≤◌, ◌<◌, ◌≡◌, ◌≢◌, refl, ap, [], ◌∷◌, arith, length, ◌==◌, Bool-cases, inl,
  inr,
}
use pea_old.Gengo.Escape.{Result, ok, err, ◌>>=◌, out_of_fuel}
use pea_old.Gengo.Token.{
  Reader, Read, read_str, read_int, IntRead, got, eof, failed, int_or_error, read_int_or_eof,
}
use pea_old.Gengo.Token.Shorter.{read_str-shorter, read_int-shorter, read_str-total, read_int-total}
use pea_old.Gengo.Mangle.{
  demangle_type, demangle_args, fuel_for, demangle_method, demangle_kind, demangle_unique,
  demangle_fun,
}

-- A read that is done leaves a reader that is shorter by `d` at least, and one that failed did so
-- with an error of the source.
abbrev pub Ends : {A : Type 0} → ℕ → Reader → Read A → Type 0
Ends d rr (ok (a, rest)) = length rest + d ≤ length rr
Ends d rr (err e) = e ≢ out_of_fuel

Ends-bind :
    {A B : Type 0} (d e : ℕ) (rr : Reader) (m : Read A) (f : A × Reader → Read B)
    → Ends d rr m
    → ((a : A) (rest : Reader) → length rest + d ≤ length rr → Ends e rr (f (a, rest)))
    → Ends e rr (m >>= f)
Ends-bind d e rr (ok (a, rest)) f h k = k a rest h
Ends-bind d e rr (err x) f h k = h

-- From the two facts that are known of a reader's result.
Ends-of :
    {A : Type 0} (rr : Reader) (m : Read A)
    → m ≢ err out_of_fuel
    → ((a : A) (rest : Reader) → m ≡ ok (a, rest) → length rest < length rr)
    → Ends 1 rr m
Ends-of rr (ok (a, rest)) h k = omega (arith, k a rest refl)
Ends-of rr (err e) h k = λ x. h (ap err x)

read_str-Ends : (rr : Reader) → Ends 1 rr (read_str rr)
read_str-Ends rr =
    Ends-of rr (read_str rr) (read_str-total rr) (λ s rest. read_str-shorter rr rest s)

read_int-Ends : (rr : Reader) → Ends 1 rr (read_int rr)
read_int-Ends rr =
    Ends-of rr (read_int rr) (read_int-total rr) (λ n rest. read_int-shorter rr rest n)

-- A shorter reader's result serves a longer one.
Ends-weaken :
    {A : Type 0} (d e : ℕ) (rr r1 : Reader) (m : Read A)
    → Ends d r1 m
    → length r1 + e ≤ length rr + d
    → Ends e rr m
Ends-weaken d e rr r1 (ok (a, rest)) h k = omega arith
Ends-weaken d e rr r1 (err x) h k = h

mutual
  unfolding demangle_type

  type-Ends : (fuel : ℕ) (rr : Reader) → length rr < fuel → Ends 3 rr (demangle_type fuel rr)
  type-Ends zero rr h = absurd (omega arith)
  type-Ends (suc fuel) rr h = Ends-bind 1 3 rr (read_str rr) _ (read_str-Ends rr) λ m r1 h1.
      Ends-bind 2 3 rr (read_int r1) _ (Ends-weaken 1 2 rr r1 _ (read_int-Ends r1) (omega arith))
        λ n r2 h2.
          Ends-bind 3 3 rr (read_str r2) _
            (Ends-weaken 1 3 rr r2 _ (read_str-Ends r2) (omega arith))
            λ s r3 h3.
              Ends-bind 3 3 rr (demangle_args fuel n r3) _
                (Ends-weaken 0 3 rr r3 _ (args-Ends fuel n r3 (omega arith)) (omega arith))
                λ args r4 h4. h4

  args-Ends :
      (fuel n : ℕ) (rr : Reader) → suc (length rr) < fuel → Ends 0 rr (demangle_args fuel n rr)
  args-Ends zero n rr h = absurd (omega arith)
  args-Ends (suc fuel) zero rr h = omega arith
  args-Ends (suc fuel) (suc n) rr h =
      Ends-bind 3 0 rr (demangle_type fuel rr) _ (type-Ends fuel rr (omega arith)) λ arg r1 h1.
        Ends-bind 0 0 rr (demangle_args fuel n r1) _
          (Ends-weaken 0 0 rr r1 _ (args-Ends fuel n r1 (omega arith)) (omega arith))
          λ args r2 h2. h2

-- `demangleType` ends on every input: with the fuel that it gives itself it returns what it read,
-- at least three runes, or an error of the source.
pub demangle_type-Ends : (rr : Reader) → Ends 3 rr (demangle_type (fuel_for rr) rr)
unfolding fuel_for
demangle_type-Ends rr = type-Ends (suc (suc (length rr))) rr (omega arith)

pub demangle_args-Ends : (n : ℕ) (rr : Reader) → Ends 0 rr (demangle_args (fuel_for rr) n rr)
unfolding fuel_for
demangle_args-Ends n rr = args-Ends (suc (suc (length rr))) n rr (omega arith)

bind-total :
    {A B : Type 0} (d : ℕ) (rr : Reader) (m : Read A) (f : A × Reader → Result B)
    → Ends d rr m
    → ((a : A) (rest : Reader) → f (a, rest) ≢ err out_of_fuel)
    → (m >>= f) ≢ err out_of_fuel
bind-total d rr (ok (a, rest)) f h k = k a rest
bind-total d rr (err x) f h k = λ e. h (cc)

demangle_method-Ends : (rr : Reader) → Ends 0 rr (demangle_method rr)
unfolding demangle_method
demangle_method-Ends rr =
    Ends-bind 3 0 rr (demangle_type (fuel_for rr) rr) _ (demangle_type-Ends rr)
      λ recv rest h. omega arith

demangle_kind-Ends : (rr : Reader) → Ends 0 rr (demangle_kind rr)
unfolding demangle_kind
demangle_kind-Ends [] = ground arith
demangle_kind-Ends (r ∷ rr) = elim (Bool-cases (r == b'F')) [
  | inl func ↦ rw func (omega arith)
  | inr not_func ↦ rw not_func (elim (Bool-cases (r == b'M')) [
    | inl method ↦ rw method (Ends-weaken 0 0 (r ∷ rr) rr _ (demangle_method-Ends rr) (omega arith))
    | inr not_method ↦ rw not_method (elim (Bool-cases (r == b'T')) [
      | inl test ↦ rw test (omega arith)
      | inr other ↦ rw other (ground arith)
    ])
  ])
]

unique_last :
    {A B : Type 0} (m : Result A) (f : A → B)
    → m ≢ err out_of_fuel
    → (m >>= λ a. ok (f a)) ≢ err out_of_fuel
unique_last (ok a) f h = λ e. cc
unique_last (err x) f h = λ e. h (cc)

read_last-total :
    (o : IntRead) → int_or_error o ≢ err out_of_fuel → demangle_unique o ≢ err out_of_fuel
unfolding demangle_unique
read_last-total eof h = λ e. cc
read_last-total (failed x) h = λ e. h (cc)
read_last-total (got n rr) h = bind-total 1 rr (read_str rr) _ (read_str-Ends rr) λ m rest e. cc

demangle_unique-total : (rr : Reader) → demangle_unique (read_int_or_eof rr) ≢ err out_of_fuel
unfolding read_int
demangle_unique-total rr = read_last-total (read_int_or_eof rr) (read_int-total rr)

-- `demangleFun` ends on every input with a text or an error of the source.
pub demangle_fun-total : (rr : Reader) → demangle_fun rr ≢ err out_of_fuel
unfolding demangle_fun
demangle_fun-total rr = bind-total 0 rr (demangle_kind rr) _ (demangle_kind-Ends rr) λ kind r1.
    bind-total 1 r1 (read_int r1) _ (read_int-Ends r1) λ nargs r2.
      bind-total 0 r2 (demangle_args (fuel_for r2) nargs r2) _ (demangle_args-Ends nargs r2)
        λ args r3. bind-total 1 r3 (read_str r3) _ (read_str-Ends r3) λ m r4.
          bind-total 1 r4 (read_str r4) _ (read_str-Ends r4)
            λ s r5. unique_last (demangle_unique (read_int_or_eof r5)) _ (demangle_unique-total r5)
