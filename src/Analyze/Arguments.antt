-- ===== src/Analyze/Arguments.antt =====
-- The command line of `tperf analyze`.
use tperf.Common.{
  ℕ, List, [], ◌∷◌, ◌++◌, Option, none, some, ◌||◌, ◌≡◌, ◌⊎◌, ◌↔◌, refl, sym, ap, ◌∙◌, arith, Text,
  codes, text_eq, text_eq→eq, Result, ok, err, Bool-cases, Option-cases, inl, inr, ◌==◌,
}
use tperf.Analyze.Options.{
  ArgsError, missing_db, strip_prefix, separate, joined, empty_path, wants_help, stray, flag_of,
  args_loop, parse_args,
}

-- The ways to give a path: `--db path`, and `--db=path` where the path is not empty.
pub data Given : Type 0 where
  apart : Text → Given
  together : ℕ → Text → Given

abbrev pub path_of : Given → Text
path_of (apart path) = path
path_of (together c path) = c ∷ path

-- The arguments of a command line, and the last path that it gives.
unfoldable pub render : List Given → List Text
render [] = []
render (apart path ∷ gs) = codes "--db" ∷ path ∷ render gs
render (together c path ∷ gs) = (codes "--db=" ++ c ∷ path) ∷ render gs

abbrev pub last_path : Option Text → List Given → Result ArgsError Text
last_path none [] = err missing_db
last_path (some path) [] = ok path
last_path db (g ∷ gs) = last_path (some (path_of g)) gs

flag-together : (c : ℕ) (path : Text) → flag_of (codes "--db=" ++ c ∷ path) ≡ joined (c ∷ path)
unfolding flag_of
flag-together c path = refl

flag-apart : flag_of (codes "--db") ≡ separate
unfolding flag_of
flag-apart = refl

args_loop-render : (db : Option Text) (gs : List Given) → args_loop db (render gs) ≡ last_path db gs
unfolding args_loop render
args_loop-render none [] = refl
args_loop-render (some path) [] = refl
args_loop-render none (apart path ∷ gs) = args_loop-render (some path) gs
args_loop-render (some p) (apart path ∷ gs) = args_loop-render (some path) gs
args_loop-render none (together c path ∷ []) = refl
args_loop-render (some p) (together c path ∷ []) = refl
args_loop-render none (together c path ∷ apart q ∷ gs) =
    args_loop-render (some (c ∷ path)) (apart q ∷ gs)
args_loop-render (some p) (together c path ∷ apart q ∷ gs) =
    args_loop-render (some (c ∷ path)) (apart q ∷ gs)
args_loop-render none (together c path ∷ together d q ∷ gs) =
    args_loop-render (some (c ∷ path)) (together d q ∷ gs)
args_loop-render (some p) (together c path ∷ together d q ∷ gs) =
    args_loop-render (some (c ∷ path)) (together d q ∷ gs)

strip_prefix_sound : (prefix s rest : Text) → strip_prefix prefix s ≡ some rest → s ≡ prefix ++ rest
unfolding strip_prefix
strip_prefix_sound [] s rest e = ground arith
strip_prefix_sound (p ∷ prefix) [] rest e = absurd (ground arith)
strip_prefix_sound (p ∷ prefix) (c ∷ s) rest e = elim (Bool-cases (p == c)) [
  | inr f ↦ absurd (ground arith)
  | inl t ↦
      let same : c ≡ p = ground arith in
      let e' : strip_prefix prefix s ≡ some rest = ground arith in
      ap (λ x. x ∷ s) same ∙ ap (◌∷◌ p) (strip_prefix_sound prefix s rest e')
]

flag-cases :
    (a : Text)
    → ((a ≡ codes "--db") × (flag_of a ≡ separate))
      ⊎ (((c : ℕ) × (rest : Text) × (a ≡ codes "--db=" ++ c ∷ rest))
          ⊎ ((flag_of a ≡ empty_path) ⊎ ((flag_of a ≡ wants_help) ⊎ (flag_of a ≡ stray))))
unfolding flag_of
flag-cases a = elim (Bool-cases (text_eq a (codes "--db"))) [
  | inl t ↦ inl (text_eq→eq a (codes "--db") t, rw (t, flag_of) refl)
  | inr f ↦ elim (Option-cases (strip_prefix (codes "--db=") a)) [
    | inr ([], q) ↦ inr (inr (inl (rw (f, q, flag_of) refl)))
    | inr (c ∷ rest, q) ↦ inr (inl (c, rest, strip_prefix_sound (codes "--db=") a (c ∷ rest) q))
    | inl q ↦ elim (Bool-cases (text_eq a (codes "-h") || text_eq a (codes "--help"))) [
      | inl h ↦ inr (inr (inr (inl (rw (f, q, h, flag_of) refl))))
      | inr h ↦ inr (inr (inr (inr (rw (f, q, h, flag_of) refl))))
    ]
  ]
]

abbrev IsRendered : List Text → Type 0
IsRendered args = (gs : List Given) × (args ≡ render gs)

-- A command line that ends in a path is one of those that `render` gives.
args_loop-IsRendered :
    (db : Option Text) (args : List Text) (path : Text)
    → args_loop db args ≡ ok path
    → IsRendered args
unfolding args_loop render
args_loop-IsRendered db [] path e = ([], refl)
args_loop-IsRendered db (a ∷ []) path e = elim (flag-cases a) [
  | inl (q, f) ↦ absurd (ground arith)
  | inr (inl (c, rest, q)) ↦ (together c rest ∷ [], ap (λ x. x ∷ []) q)
  | inr (inr (inl f)) ↦ absurd (ground arith)
  | inr (inr (inr (inl f))) ↦ absurd (ground arith)
  | inr (inr (inr (inr f))) ↦ absurd (ground arith)
]
args_loop-IsRendered db (a ∷ b ∷ args) path e = elim (flag-cases a) [
  | inl (q, f) ↦
      let (gs, r) = args_loop-IsRendered (some b) args path (ground arith) in
      (apart b ∷ gs, ap (λ x. x ∷ b ∷ args) q ∙ ap (λ xs. codes "--db" ∷ b ∷ xs) r)
  | inr (inl (c, rest, q)) ↦
      let f = ap flag_of q ∙ flag-together c rest in
      let (gs, r) = args_loop-IsRendered (some (c ∷ rest)) (b ∷ args) path (ground arith) in
      (
        together c rest ∷ gs,
        ap (λ x. x ∷ b ∷ args) q ∙ ap (λ xs. (codes "--db=" ++ c ∷ rest) ∷ xs) r,
      )
  | inr (inr (inl f)) ↦ absurd (ground arith)
  | inr (inr (inr (inl f))) ↦ absurd (ground arith)
  | inr (inr (inr (inr f))) ↦ absurd (ground arith)
]

-- `parse_args` accepts exactly the command lines that give a path at least once, each as `--db
-- path` or `--db=path`, and nothing else; and what it returns is the last path given.
pub parse_args_iff :
    (args : List Text) (path : Text)
    → (parse_args args ≡ ok path)
      ↔ ((gs : List Given) × (args ≡ render gs) × (last_path none gs ≡ ok path))
unfolding parse_args
parse_args_iff args path = (
  λ e.
      let (gs, r) = args_loop-IsRendered none args path e in
      (gs, r, sym (args_loop-render none gs) ∙ ap (args_loop none) (sym r) ∙ e),
  λ (gs, r, l). ap (args_loop none) r ∙ args_loop-render none gs ∙ l,
)
