-- ===== src/Start/Config.antt =====
-- The reading of the configuration (Init and getCurDir of config/config.go). viper, path.Join and the
-- name of the source file are arguments.
use yoyichat.Base.{
  ℕ, ◌≡◌, refl, Option, none, some, List, [], ◌∷◌, ◌++◌, ◌==◌, Bool-cases, inl, inr, Result, ok,
  err, ap, arith,
}
use yoyichat.Base.Bytes.{Bytes, codes, split, add_head, Lacks, split-Lacks}
use yoyichat.Start.{get_mode}

-- `aPath[:len(aPath)-1]`
unfoldable pub but_last : List Bytes → List Bytes
but_last [] = []
but_last (p ∷ []) = []
but_last (p ∷ q ∷ ps) = p ∷ but_last (q ∷ ps)

-- `strings.Join`
unfoldable pub join : ℕ → List Bytes → Bytes
join sep [] = []
join sep (p ∷ []) = p
join sep (p ∷ q ∷ ps) = p ++ sep ∷ join sep (q ∷ ps)

unfoldable pub get_cur_dir : (filename : Bytes) → Bytes
get_cur_dir filename = join b'/' (but_last (split b'/' filename))

-- the sections of `Config`
pub data Section : Type 0 where
  connect common api logic task client : Section

-- What is used of viper: the two readers give an error or nothing.
pub record Viper : Type 1 where
  pub State : Type 0
  pub Value : Type 0
  pub set_config_type : Bytes → State → State
  pub add_config_path : Bytes → State → State
  pub set_config_name : Bytes → State → State
  pub read_in_config : State → Option Bytes × State
  pub merge_in_config : State → Option Bytes × State
  pub unmarshal : Section → State → Value

module _ (V : Viper) where
  pub data Configured : Type 0 where
    configured : (Section → V.Value) → V.State → Configured
    panics : Bytes → Configured

  -- the files behind the first; the first error ends it
  unfoldable pub merge_all : List Bytes → V.State → Result V.State
  merge_all [] s = ok s
  merge_all (name ∷ names) s =
      let (e, s') = V.merge_in_config (V.set_config_name name s) in
      elim e [ none ↦ merge_all names s' | some error ↦ err error ]

  unfoldable pub read_all : Bytes → List Bytes → V.State → Result V.State
  read_all first names s =
      let (e, s') = V.read_in_config (V.set_config_name first s) in
      elim e [ none ↦ merge_all names s' | some error ↦ err error ]

  unfoldable pub configure : Result V.State → Configured
  configure (err error) = panics error
  configure (ok s) = configured (λ section. V.unmarshal section s) s

  -- the body of `Init`, which `once` runs a single time
  unfoldable pub init :
      (path_join : Bytes → Bytes → Bytes) (filename env : Bytes) → V.State → Configured
  init path_join filename env s = configure (
      read_all (codes "/connect")
        (codes "/common" ∷ codes "/task" ∷ codes "/logic" ∷ codes "/api" ∷ codes "/client" ∷ [])
        (V.add_config_path (path_join (get_cur_dir filename) (get_mode env))
          (V.set_config_type (codes "toml") s)))

split_cons : (sep : ℕ) (s : Bytes) → (p : Bytes) × (ps : List Bytes) × (split sep s ≡ p ∷ ps)
unfolding split add_head
split_cons sep [] = ([], [], refl)
split_cons sep (c ∷ s) =
    let (p, ps, e) = split_cons sep s in
    elim (Bool-cases (c == sep)) [
      | inl f ↦ ([], p ∷ ps, rw (f, e) refl)
      | inr f ↦ (c ∷ p, ps, rw (f, e, add_head) refl)
    ]

-- the last part, behind the last separator
split-last :
    (sep : ℕ) (s t : Bytes) → Lacks sep t → split sep (s ++ sep ∷ t) ≡ split sep s ++ t ∷ []
unfolding split add_head
split-last sep [] t l = rw (split-Lacks sep t l) (ground arith)
split-last sep (c ∷ s) t l =
    let (p, ps, e) = split_cons sep s in
    elim (Bool-cases (c == sep)) [
      | inl f ↦ rw (f, split-last sep s t l) refl
      | inr f ↦ rw (f, split-last sep s t l, e, add_head) refl
    ]

but_last-++ : (ps : List Bytes) (t : Bytes) → but_last (ps ++ t ∷ []) ≡ ps
unfolding but_last
but_last-++ [] t = refl
but_last-++ (p ∷ []) t = refl
but_last-++ (p ∷ q ∷ ps) t = ap (λ qs. p ∷ qs) (but_last-++ (q ∷ ps) t)

join_head :
    (sep c : ℕ) (p : Bytes) (ps : List Bytes) → join sep ((c ∷ p) ∷ ps) ≡ c ∷ join sep (p ∷ ps)
unfolding join
join_head sep c p [] = refl
join_head sep c p (q ∷ ps) = refl

join-split : (sep : ℕ) (s : Bytes) → join sep (split sep s) ≡ s
unfolding split join add_head
join-split sep [] = refl
join-split sep (c ∷ s) =
    let (p, ps, e) = split_cons sep s in
    let rest : join sep (p ∷ ps) ≡ s = rw (← e) (join-split sep s) in
    elim (Bool-cases (c == sep)) [
      | inl f ↦ let same : c ≡ sep = ground arith in rw (f, e, join, rest, same) refl
      | inr f ↦ rw (f, e, add_head, join_head sep c p ps, rest) refl
    ]

-- The directory of a source file `dir/base` is `dir`, if `base` holds no slash.
get_cur_dir_lem : (dir base : Bytes) → Lacks b'/' base → get_cur_dir (dir ++ b'/' ∷ base) ≡ dir
unfolding get_cur_dir
get_cur_dir_lem dir base l =
    rw (split-last b'/' dir base l, but_last-++ (split b'/' dir) base) (join-split b'/' dir)
