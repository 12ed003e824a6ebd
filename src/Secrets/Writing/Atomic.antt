-- ===== src/Secrets/Writing/Atomic.antt =====
-- scripts/rotation_common.py: at whatever call a replacement of a secret stops, the secret is the old one
-- or the new one.
use mathlib.Core.Path.{fun_ext}
use mailgate.Common.{
  take, Result, ok, err, Text, Bytes, codes, if-split, Bool-cases, ◌==◌, nat_eq, list_eq, option_eq,
  ℕ, ◌≡◌, refl, sym, ap, ◌∙◌, ◌⊎◌, inl, inr, true, false, ◌||◌, Option, none, some, ◌++◌,
}
use mailgate.Dkim.{finished}
use mailgate.Secrets.{
  Raised, tool, system_error, subprocess_error, Entry, Files, put_file, file_exists, is_private,
  Codec,
}
use mailgate.Secrets.Writing.{
  Platform, windows, posix, harden_secret_file, WriteCall, temporary_name, new_entry, publish,
  fill_temporary, write_temporary, as_tool_error, clean_up, replace_secret, when_checked,
  atomic_write_secret,
}

put_file_twice :
    (name : Text) (a b : Option Entry) (files : Files)
    → put_file name a (put_file name b files) ≡ put_file name a files
put_file_twice name a b files =
    fun_ext λ j. elim (Bool-cases (j == name)) [ inl e ↦ rw e refl | inr e ↦ rw e refl ]

pub put_file_same : (name : Text) (files : Files) → put_file name (files name) files ≡ files
put_file_same name files = fun_ext λ j. elim (Bool-cases (j == name)) [
  | inl e ↦ rw e (ap files (sym ((list_eq.agrees j name).0 e)))
  | inr e ↦ rw e refl
]

-- The entry that a complete replacement leaves.
abbrev pub IsComplete : Codec → Text → Option Entry → Type 0
IsComplete codec value e =
    (x : Entry) × (e ≡ some x)
    × (is_private x ≡ true)
    × (x.content ≡ codec.encode (value ++ codes "\n"))

-- What a step leaves: `t` under the temporary name and `e` under that of the secret.
abbrev pub Leaves : Text → Text → Files → Files → Option Entry → Option Entry → Type 0
Leaves temporary name files files' t e = files' ≡ put_file temporary t (put_file name e files)

abbrev pub IsOldOrComplete : Codec → Text → Option Entry → Option Entry → Type 0
IsOldOrComplete codec value old e = (e ≡ old) ⊎ IsComplete codec value e

-- If it returned, the new secret is there, and the temporary file is not.
abbrev IsFinished : Codec → Text → Result Raised (Unit {0}) → Option Entry → Option Entry → Type 0
IsFinished codec value (ok _) t e = IsComplete codec value e × (t ≡ none)
IsFinished codec value (err _) t e = Unit

abbrev pub IsReplacement :
    Codec → WriteCall → Text → Text → Files → Result Raised (Unit {0}) × Files → Type 0
IsReplacement codec call name value files (r, files') =
    (t : Option Entry) × (e : Option Entry) × Leaves (temporary_name call.token name) name files
      files' t e
    × IsOldOrComplete codec value (files name) e
    × IsFinished codec value r t e

module _ (codec : Codec) (call : WriteCall) (name value : Text) (mode : ℕ) (files : Files) where
  abbrev temporary : Text
  temporary = temporary_name call.token name

  abbrev complete_content : Bytes
  complete_content = codec.encode (value ++ codes "\n")

  unchanged :
      (t : Option Entry)
      → put_file temporary t files ≡ put_file temporary t (put_file name (files name) files)
  unchanged t = ap (put_file temporary t) (sym (put_file_same name files))

  -- `harden_secret_file` keeps the bytes.
  abbrev IsHardened : Entry → Entry → Type 0
  IsHardened x y = (y.content ≡ x.content) × (is_private y ≡ is_private x)

  hardened : (p : Platform) (x : Entry) → IsHardened x (harden_secret_file p mode x).1
  unfolding harden_secret_file
  hardened (windows false return_code) x = (refl, refl)
  hardened (windows true none) x = (refl, refl)
  hardened (windows true (some return_code)) x = (refl, refl)
  hardened (posix true shown) x = (refl, refl)
  hardened (posix false shown) x = (refl, refl)

  publish-IsReplacement :
      (r : Result Raised (Unit {0}) × Entry)
      → IsHardened (new_entry call.identity complete_content) r.1
      → IsReplacement codec call name value files (publish call temporary name r files)
  publish-IsReplacement (err e, x) h = (some x, files name, unchanged (some x), inl refl, tt)
  publish-IsReplacement (ok _, x) (content, private) =
      let complete : IsComplete codec value (some x) = (x, refl, private, content) in
      let moved : Files = put_file temporary none (put_file name (some x) files) in
      if-split (IsReplacement codec call name value files) call.replace_fails _ _
        (λ _. (some x, files name, unchanged (some x), inl refl, tt))
        (λ _.
          if-split (λ r. IsReplacement codec call name value files (r, moved)) call.sync_fails
            (err system_error) (ok tt) (λ _. (none, some x, refl, inr complete, tt))
            (λ _. (none, some x, refl, inr complete, (complete, refl))))

  fill-IsReplacement :
      (cut : Option ℕ)
      → IsReplacement codec call name value files
          (fill_temporary call cut temporary name complete_content mode files)
  fill-IsReplacement (some n) = (
    some (new_entry call.identity (take n complete_content)),
    files name,
    unchanged _,
    inl refl,
    tt,
  )
  fill-IsReplacement none =
      publish-IsReplacement _ (hardened call.platform (new_entry call.identity complete_content))

  untouched : (e : Raised) → IsReplacement codec call name value files (err e, files)
  untouched e = (
    files temporary,
    files name,
    sym (put_file_same temporary files) ∙ unchanged (files temporary),
    inl refl,
    tt,
  )

  write-IsReplacement :
      IsReplacement codec call name value files
        (write_temporary call temporary name complete_content mode files)
  write-IsReplacement =
      if-split (IsReplacement codec call name value files)
        (call.open_fails || file_exists temporary files) _ _ (λ _. untouched system_error)
        (λ _. fill-IsReplacement call.cut)

  clean_up-IsReplacement :
      (r : Result Raised (Unit {0}) × Files)
      → IsReplacement codec call name value files r
      → IsReplacement codec call name value files (clean_up call temporary r)
  clean_up-IsReplacement (r, f) (t, e, left, old_or_new, finished) =
      if-split (IsReplacement codec call name value files) call.unlink_fails _ _
        (λ _. (t, e, left, old_or_new, tt))
        (λ _. (
          none,
          e,
          ap (put_file temporary none) left ∙ put_file_twice temporary none t _,
          old_or_new,
          kept r finished,
        ))
    where
      kept :
          (r : Result Raised (Unit {0}))
          → IsFinished codec value r t e
          → IsFinished codec value (as_tool_error call r) none e
      kept (ok _) h = (h.0, refl)
      kept (err system_error) h = tt
      kept (err subprocess_error) h = tt
      kept (err (tool x)) h = tt

  checked-IsReplacement :
      (c : Result Raised (Unit {0}))
      → IsReplacement codec call name value files
          (when_checked call c (replace_secret call codec name value mode files) files)
  checked-IsReplacement (err e) = untouched e
  checked-IsReplacement (ok _) = clean_up-IsReplacement _ write-IsReplacement

-- Whatever call fails, a replacement changes no file but the secret and the temporary one, and the
-- secret is what it was or a private file of all the new bytes. If it returns, the secret is the new
-- one and no temporary file is left.
pub atomic_write_secret-IsReplacement :
    (codec : Codec) (call : WriteCall) (name value : Text) (mode : ℕ) (files : Files)
    → IsReplacement codec call name value files
        (atomic_write_secret call codec name value mode files)
unfolding atomic_write_secret
atomic_write_secret-IsReplacement codec call name value mode files =
    checked-IsReplacement codec call name value mode files _
