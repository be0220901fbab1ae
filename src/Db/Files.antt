-- ===== src/Db/Files.antt =====
-- The path of the database file.
use tperf.Common.{
  ℕ, List, [], ◌∷◌, ◌++◌, some, true, false, ◌≡◌, ◌≢◌, ◌↔◌, ◌⊎◌, refl, ap, ◌∙◌, arith, Text, codes,
  text_eq, text_eq→eq, text_eq_refl, err, Bool-cases, Option-cases, Result-cases, inl, inr, length,
  length-append,
}
use tperf.Strings.{rsplit_once, contains}
use tperf.NetUtil.{is_empty}
use tperf.NetUtil.Addresses.{rsplit_once-append}
use tperf.Config.{Config, db_filename, strip_suffix, is_bad_tag}
use tperf.Db.{
  Removal, removed, not_found, failed, remove_each, remove_db_files, sidecar, db_texts, Json,
  System, bad_extension, extension, is_db_path, create,
}

db_no_dot : contains (codes "db") b'.' ≡ false
unfolding contains
db_no_dot = refl

not_dots : (c : ℕ) (stem : Text) → text_eq ((c ∷ stem) ++ codes ".db") (codes "..") ≡ false
not_dots c stem = elim (Bool-cases (text_eq ((c ∷ stem) ++ codes ".db") (codes ".."))) [
  | inr f ↦ f
  | inl t ↦
      let e = ap length (text_eq→eq ((c ∷ stem) ++ codes ".db") (codes "..") t) in
      let k = length-append (c ∷ stem) (codes ".db") in absurd (omega arith)
]

extension_step :
    (name before after : Text)
    → rsplit_once name b'.' ≡ some (before, after)
    → is_empty before ≡ false
    → text_eq name (codes "..") ≡ false
    → extension name ≡ some after
unfolding extension
extension_step name before after e h k = ground arith

extension-stem : (c : ℕ) (stem : Text) → extension ((c ∷ stem) ++ codes ".db") ≡ some (codes "db")
unfolding is_empty
extension-stem c stem =
    extension_step _ (c ∷ stem) (codes "db")
      (rsplit_once-append (c ∷ stem) (codes "db") b'.' db_no_dot) refl (not_dots c stem)

stem-IsDbPath : (c : ℕ) (stem : Text) → is_db_path ((c ∷ stem) ++ codes ".db") ≡ true
unfolding is_db_path
stem-IsDbPath c stem = rw (extension-stem c stem, is_db_path) (text_eq_refl (codes "db"))

dot-not-IsDbPath : is_db_path (codes ".db") ≡ false
unfolding is_db_path extension rsplit_once is_empty
dot-not-IsDbPath = refl

strip_suffix_sound : (suffix s stem : Text) → strip_suffix suffix s ≡ some stem → s ≡ stem ++ suffix
unfolding strip_suffix
strip_suffix_sound suffix [] stem e = elim (Bool-cases (text_eq [] suffix)) [
  | inl t ↦ let q : [] ≡ stem = ground arith in text_eq→eq [] suffix t ∙ ap (λ x. x ++ suffix) q
  | inr f ↦ absurd (ground arith)
]
strip_suffix_sound suffix (c ∷ s) stem e = elim (Bool-cases (text_eq (c ∷ s) suffix)) [
  | inl t ↦
      let q : [] ≡ stem = ground arith in text_eq→eq (c ∷ s) suffix t ∙ ap (λ x. x ++ suffix) q
  | inr f ↦ elim (Option-cases (strip_suffix suffix s)) [
    | inl n ↦ absurd (ground arith)
    | inr (later, q) ↦
        let w : c ∷ later ≡ stem = ground arith in
        ap (◌∷◌ c) (strip_suffix_sound suffix s later q) ∙ ap (λ x. x ++ suffix) w
  ]
]

-- The file name has a stem, unless the tag is nothing but the suffix.
db_filename-cases :
    (tag : Text)
    → is_empty tag ≡ false
    → (((tag ≡ codes ".db") ⊎ (tag ≡ codes ".DB")) × (db_filename tag ≡ codes ".db"))
      ⊎ ((c : ℕ) × (stem : Text) × (db_filename tag ≡ (c ∷ stem) ++ codes ".db"))
unfolding db_filename is_empty
db_filename-cases [] h = absurd (ground arith)
db_filename-cases (t ∷ tag) h = elim (Option-cases (strip_suffix (codes ".db") (t ∷ tag))) [
  | inr ([], p) ↦
      inl (inl (strip_suffix_sound (codes ".db") (t ∷ tag) [] p), rw (p, db_filename) refl)
  | inr (c ∷ stem, p) ↦ inr (c, stem, rw (p, db_filename) refl)
  | inl p ↦ elim (Option-cases (strip_suffix (codes ".DB") (t ∷ tag))) [
    | inr ([], q) ↦
        inl (inr (strip_suffix_sound (codes ".DB") (t ∷ tag) [] q), rw (p, q, db_filename) refl)
    | inr (c ∷ stem, q) ↦ inr (c, stem, rw (p, q, db_filename) refl)
    | inl q ↦ inr (t, tag, rw (p, q, db_filename) refl)
  ]
]

db_filename-dot : db_filename (codes ".db") ≡ codes ".db"
unfolding db_filename strip_suffix
db_filename-dot = refl

db_filename-upper_dot : db_filename (codes ".DB") ≡ codes ".db"
unfolding db_filename strip_suffix
db_filename-upper_dot = refl

bad_tag-some : (tag : Text) → is_bad_tag tag ≡ false → is_empty tag ≡ false
unfolding is_bad_tag
bad_tag-some tag h = ground arith

remove_each-error : (sys : System) (ps : List Text) → remove_each sys ps ≢ err bad_extension
unfolding remove_each
remove_each-error sys [] e = ground arith
remove_each-error sys (p ∷ ps) e = by_removal (System.removal sys p) refl (remove_each-error sys ps)
  where
    by_removal :
        (r : Removal) → System.removal sys p ≡ r → remove_each sys ps ≢ err bad_extension → ⊥
    by_removal removed q k = k (ground arith)
    by_removal not_found q k = k (ground arith)
    by_removal failed q k = ground arith

module _ {F : Type 0} (json : Json) (sys : System) where
  create-refuses :
      (path : Text) (cfg : Config)
      → is_db_path path ≡ false
      → create {F = F} json sys path cfg ≡ err bad_extension
  unfolding create
  create-refuses path cfg h = rw (h, create) refl

  create-accepts :
      (path : Text) (cfg : Config)
      → is_db_path path ≡ true
      → create {F = F} json sys path cfg ≢ err bad_extension
  unfolding create remove_db_files
  create-accepts path cfg h e =
      let other =
        remove_each-error sys
          (path ∷ sidecar path (codes "-wal") ∷ sidecar path (codes "-shm") ∷ []) in
      elim (Result-cases
        (remove_each sys (path ∷ sidecar path (codes "-wal") ∷ sidecar path (codes "-shm") ∷ []))) [
          | inr (x, q) ↦ ground arith
          | inl (u, q) ↦ elim (Option-cases (db_texts json cfg)) [
            | inl r ↦ ground arith
            | inr ((a, b, c), r) ↦ ground arith
          ]
        ]

  -- A run whose tag `validate` accepts is refused for the name of its file exactly if the tag is
  -- `.db` or `.DB`: of these nothing is left before the suffix, and `.db` is a name with no
  -- extension.
  pub create-bad_extension :
      (cfg : Config)
      → is_bad_tag cfg.tag ≡ false
      → (create {F = F} json sys (db_filename cfg.tag) cfg ≡ err bad_extension)
        ↔ ((cfg.tag ≡ codes ".db") ⊎ (cfg.tag ≡ codes ".DB"))
  create-bad_extension cfg h = (forth, back)
    where
      forth :
          create {F = F} json sys (db_filename cfg.tag) cfg ≡ err bad_extension
          → (cfg.tag ≡ codes ".db") ⊎ (cfg.tag ≡ codes ".DB")
      forth e = elim (db_filename-cases cfg.tag (bad_tag-some cfg.tag h)) [
        | inl (which, q) ↦ which
        | inr (c, stem, q) ↦
            absurd
              (create-accepts (db_filename cfg.tag) cfg (ap is_db_path q ∙ stem-IsDbPath c stem) e)
      ]

      back :
          (cfg.tag ≡ codes ".db") ⊎ (cfg.tag ≡ codes ".DB")
          → create {F = F} json sys (db_filename cfg.tag) cfg ≡ err bad_extension
      back (inl q) = create-refuses (db_filename cfg.tag) cfg (
          ap (λ t. is_db_path (db_filename t)) q ∙ ap is_db_path db_filename-dot ∙ dot-not-IsDbPath)
      back (inr q) = create-refuses (db_filename cfg.tag) cfg (
          ap (λ t. is_db_path (db_filename t)) q
          ∙ ap is_db_path db_filename-upper_dot
          ∙ dot-not-IsDbPath)
