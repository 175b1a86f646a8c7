-- ===== src/Files.antt =====
-- The arguments of `AddFile` in controller.go.
pub mod Laws
pub mod Stored
pub mod Access
use gomaasapi.Prelude.{
  ℕ, suc, zero, Bool, true, false, not, Option, none, some, List, [], ◌∷◌, ◌++◌, if◌then◌else◌,
  ◌==◌, nat_eq, list_eq, int_eq, ℤ, pos, negsuc, Result, ok, err, ltb, length,
}
use gomaasapi.Strings.{Text, codes}
use gomaasapi.Errors.{JujuErrors, not_valid}

-- io.Reader, as what it gives when it is read to its end: bytes, and then perhaps an error.
pub record Reader (Err : Type 0) : Type 0 where
  pub bytes : Text
  pub error : Option Err

-- AddFileArgs; a nil slice or reader is `none`.
pub record AddFileArgs (Err : Type 0) : Type 0 where
  pub filename : Text
  pub content : Option Text
  pub reader : Option (Reader Err)
  pub length : ℤ

-- The directory part of `path.Split`: all up to the last slash.
unfoldable pub split_dir : Text → Text
split_dir [] = []
split_dir (c ∷ s) =
    let behind = split_dir s in
    if not (behind == []) then c ∷ behind else if c == b'/' then c ∷ [] else []

-- The first bytes of a text, at most `n`.
unfoldable pub take : ℕ → Text → Text
take zero s = []
take (suc n) [] = []
take (suc n) (c ∷ s) = c ∷ take n s

limit : ℤ → ℕ
limit (pos n) = n
limit (negsuc n) = 0

read_rest : {Err : Type 0} → Text → Option Err → Result Err Text
read_rest bytes none = ok bytes
read_rest bytes (some e) = err e

-- `ioutil.ReadAll(io.LimitReader(r, n))`: what lies behind the limit is not read, an error neither.
unfoldable pub read_limited : {Err : Type 0} → Reader Err → ℤ → Result Err Text
unfolding limit read_rest take
read_limited r n =
    if ltb (length r.bytes) (limit n)
    then read_rest r.bytes r.error
    else ok (take (limit n) r.bytes)

module _ (E : JujuErrors) where
  open E use {Err, new, annotate}

  fail : Text → Option Err
  fail message = some (new (not_valid message))

  content_or_reader : AddFileArgs Err → Option Text → Option (Reader Err) → Option Err
  content_or_reader a none none = fail (codes "missing Content or Reader")
  content_or_reader a none (some r) =
      if a.length == pos 0 then fail (codes "missing Length") else none
  content_or_reader a (some c) (some r) = fail (codes "specifying Content and Reader")
  content_or_reader a (some c) none =
      if a.length == pos 0 then none else fail (codes "specifying Length and Content")

  -- AddFileArgs.Validate
  unfoldable pub add_file_args_validate : (Text → Text) → AddFileArgs Err → Option Err
  unfolding content_or_reader fail split_dir
  add_file_args_validate quote a =
      if not (split_dir a.filename == [])
      then fail (codes "paths in Filename " ++ quote a.filename)
      else if a.filename == []
      then fail (codes "missing Filename")
      else content_or_reader a a.content a.reader

  annotated : Result Err Text → Result Err Text
  annotated (ok content) = ok content
  annotated (err e) = err (annotate e (codes "cannot read file content"))

  reader_content : ℤ → Option (Reader Err) → Result Err Text
  reader_content n none = ok []
  reader_content n (some r) = annotated (read_limited r n)

  -- The content that is sent: the one given, or what the reader gives up to the length.
  unfoldable pub file_content : AddFileArgs Err → Result Err Text
  unfolding annotated reader_content read_limited
  file_content a = elim a.content [
    | some content ↦ ok content
    | none ↦ reader_content a.length a.reader
  ]
