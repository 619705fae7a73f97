-- ===== src/Basic/Sub/Instrs.antt =====
-- basic/sub.go: `subVals` of each kind of statement.
use pea_old.Prelude.{ℕ, ◌<◌, List, [], ◌∷◌, ◌++◌, map, Option, none, some}
use mathlib.Core.Option
use pea_old.Basic.Ir.{
  Instr, store, copy, make_array, new_array, make_slice, make_string, new_string, make_and, make_or,
  make_virt, call, virt_call, panic, switch, op, load, index, field, Heap, present, optional,
}
use pea_old.Basic.Sub.{M, ◌>>=◌, pure, sub1, sub_list, sub_optional, sub_fields, sub_instr}
use pea_old.Basic.Sub.Step.{Runs, Runs-pure, Runs-bind, Runs-sub1}

-- The statement with another value for each of its values.
unfoldable pub map_instr : (ℕ → ℕ) → Instr → Instr
map_instr f (store dst val) = store (f dst) (f val)
map_instr f (copy dst src) = copy (f dst) (f src)
map_instr f (make_array dst args) = make_array (f dst) (map f args)
map_instr f (new_array dst size) = new_array (f dst) (f size)
map_instr f (make_slice dst ary from to) = make_slice (f dst) (f ary) (f from) (f to)
map_instr f (make_string dst str) = make_string (f dst) str
map_instr f (new_string dst bytes) = new_string (f dst) (f bytes)
map_instr f (make_and dst fields block_fun) = make_and (f dst) (map (Option.map f) fields) block_fun
map_instr f (make_or dst cas val) = make_or (f dst) cas (Option.map f val)
map_instr f (make_virt dst obj virts) = make_virt (f dst) (Option.map f obj) virts
map_instr f (call fun args) = call fun (map f args)
map_instr f (virt_call self i args) = virt_call (f self) i (map f args)
map_instr f (panic v) = panic (f v)
map_instr f (switch v dsts) = switch (f v) dsts
map_instr f (op code args) = op code (map f args)
map_instr f (load src) = load (f src)
map_instr f (index ary i) = index (f ary) (f i)
map_instr f (field obj i) = field (f obj) i
map_instr f other = other

-- The fields of a statement in the order in which `subVals` visits them.
unfoldable pub visits : Instr → List ℕ
visits (store dst val) = dst ∷ val ∷ []
visits (copy dst src) = dst ∷ src ∷ []
visits (make_array dst args) = dst ∷ args
visits (new_array dst size) = dst ∷ size ∷ []
visits (make_slice dst ary from to) = dst ∷ ary ∷ from ∷ to ∷ []
visits (make_string dst str) = dst ∷ []
visits (new_string dst bytes) = dst ∷ bytes ∷ []
visits (make_and dst fields block_fun) = dst ∷ present fields
visits (make_or dst cas val) = dst ∷ optional val
visits (make_virt dst obj virts) = dst ∷ optional obj
visits (call fun args) = args
visits (virt_call self i args) = self ∷ args
visits (panic v) = v ∷ []
visits (switch v dsts) = v ∷ []
visits (op code args) = args
visits (load src) = src ∷ []
visits (index ary i) = ary ∷ i ∷ []
visits (field obj i) = obj ∷ []
visits _ = []

module _ (num rank final : ℕ → ℕ) (fuel s : ℕ) (enough : (v : ℕ) → rank v < fuel)
    (before : Heap) where
  -- The new fields, last first, in front of those seen before.
  abbrev pub finals : List ℕ → List ℕ → List ℕ
  finals [] seen = seen
  finals (v ∷ vs) seen = finals vs (final v ∷ seen)

  abbrev R : {A : Type 0} → M A → A → List ℕ → List ℕ → List ℕ → List ℕ → Type 0
  R m a = Runs num rank final fuel s enough before m a

  one :
      (v : ℕ) (seen ahead : List ℕ)
      → R (sub1 fuel s v) (final v) seen (v ∷ ahead) (final v ∷ seen) ahead
  one v seen ahead = Runs-sub1 num rank final fuel s enough before v seen ahead

  done : {A : Type 0} (a : A) (seen ahead : List ℕ) → R (pure a) a seen ahead seen ahead
  done a seen ahead = Runs-pure num rank final fuel s enough before a seen ahead

  bind :
      {A B : Type 0} {m : M A} (f : A → M B) {a : A} {b : B} {f0 a0 f1 a1 f2 a2 : List ℕ}
      → R m a f0 a0 f1 a1
      → R (f a) b f1 a1 f2 a2
      → R (m >>= f) b f0 a0 f2 a2
  bind {m} f {a} {b} {f0} {a0} {f1} {a1} {f2} {a2} =
      Runs-bind num rank final fuel s enough before m f a b f0 a0 f1 a1 f2 a2

  list_runs :
      (vs seen ahead : List ℕ)
      → R (sub_list fuel s vs) (map final vs) seen (vs ++ ahead) (finals vs seen) ahead
  unfolding sub_list
  list_runs [] seen ahead = done [] seen ahead
  list_runs (v ∷ vs) seen ahead =
      bind _ (one v seen (vs ++ ahead)) (bind _ (list_runs vs (final v ∷ seen) ahead) (done _ _ _))

  optional_runs :
      (o : Option ℕ) (seen ahead : List ℕ)
      → R
          (sub_optional fuel s o)
          (Option.map final o)
          seen
          (optional o ++ ahead)
          (finals (optional o) seen)
          ahead
  unfolding sub_optional
  optional_runs none seen ahead = done none seen ahead
  optional_runs (some v) seen ahead = bind _ (one v seen ahead) (done _ _ _)

  fields_runs :
      (fs : List (Option ℕ)) (seen ahead : List ℕ)
      → R
          (sub_fields fuel s fs)
          (map (Option.map final) fs)
          seen
          (present fs ++ ahead)
          (finals (present fs) seen)
          ahead
  unfolding sub_fields present
  fields_runs [] seen ahead = done [] seen ahead
  fields_runs (none ∷ fs) seen ahead =
      bind _ (optional_runs none seen (present fs ++ ahead))
        (bind _ (fields_runs fs seen ahead) (done _ _ _))
  fields_runs (some v ∷ fs) seen ahead =
      bind _ (optional_runs (some v) seen (present fs ++ ahead))
        (bind _ (fields_runs fs (final v ∷ seen) ahead) (done _ _ _))

  -- The whole of `subVals`: each value is replaced by what it stands for.
  pub instr_runs :
      (i : Instr)
      → R (sub_instr fuel s i) (map_instr final i) [] (visits i ++ []) (finals (visits i) []) []
  unfolding sub_instr map_instr visits
  instr_runs (store dst val) = bind _ (one dst [] _) (bind _ (one val _ []) (done _ _ _))
  instr_runs (copy dst src) = bind _ (one dst [] _) (bind _ (one src _ []) (done _ _ _))
  instr_runs (make_array dst args) =
      bind _ (one dst [] _) (bind _ (list_runs args _ []) (done _ _ _))
  instr_runs (new_array dst size) = bind _ (one dst [] _) (bind _ (one size _ []) (done _ _ _))
  instr_runs (make_slice dst ary from to) =
      bind _ (one dst [] _)
        (bind _ (one ary _ _) (bind _ (one from _ _) (bind _ (one to _ []) (done _ _ _))))
  instr_runs (make_string dst str) = bind _ (one dst [] []) (done _ _ _)
  instr_runs (new_string dst bytes) = bind _ (one dst [] _) (bind _ (one bytes _ []) (done _ _ _))
  instr_runs (make_and dst fields block_fun) =
      bind _ (one dst [] _) (bind _ (fields_runs fields _ []) (done _ _ _))
  instr_runs (make_or dst cas val) =
      bind _ (one dst [] _) (bind _ (optional_runs val _ []) (done _ _ _))
  instr_runs (make_virt dst obj virts) =
      bind _ (one dst [] _) (bind _ (optional_runs obj _ []) (done _ _ _))
  instr_runs (call fun args) = bind _ (list_runs args [] []) (done _ _ _)
  instr_runs (virt_call self i args) =
      bind _ (one self [] _) (bind _ (list_runs args _ []) (done _ _ _))
  instr_runs (panic v) = bind _ (one v [] []) (done _ _ _)
  instr_runs (switch v dsts) = bind _ (one v [] []) (done _ _ _)
  instr_runs (op code args) = bind _ (list_runs args [] []) (done _ _ _)
  instr_runs (load src) = bind _ (one src [] []) (done _ _ _)
  instr_runs (index ary i) = bind _ (one ary [] _) (bind _ (one i _ []) (done _ _ _))
  instr_runs (field obj i) = bind _ (one obj [] []) (done _ _ _)
  instr_runs other = done other [] []
