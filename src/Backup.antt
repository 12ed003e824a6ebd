-- ===== src/Backup.antt =====
-- scripts/backup_archive.py: the format of the encrypted backups. A file is the list of its bytes, and
-- AES-GCM works on all of them at once, as its updates on the chunks do together.
pub mod Header
pub mod Metadata
pub mod RoundTrip
pub mod Payload
pub mod Scripts
mod Codec
mod Tests
use mailgate.Common.{
  length, take, drop, is_empty, Result, ok, err, ◌>>=◌, or_raise, Bytes, codes, starts_with, ltb,
  leb, if◌then◌else◌, ◌==◌, nat_eq, list_eq, option_eq, ℕ, ◌+◌, ◌-◌, ◌*◌, ◌/◌, ◌%◌, not, ◌&&◌, ◌||◌,
  Option, none, some, [], ◌∷◌, ◌++◌,
}
use mailgate.Dkim.{tag}
use mailgate.Json.{Json, object, Fields}

abbrev pub magic : Bytes
magic = codes "MAILGATE-BACKUP" ++ 0 ∷ []

abbrev pub max_metadata_bytes : ℕ
max_metadata_bytes = 64 * 1024

-- What the `cryptography` package and `json` do.
pub record ArchiveLibraries : Type 0 where
  -- of a key, a nonce, the additional data and the plaintext: the ciphertext and the tag
  pub seal : Bytes → Bytes → Bytes → Bytes → Bytes × Bytes
  -- of a key, a nonce, a tag, the additional data and the ciphertext; `none` is `InvalidTag`
  pub unseal : Bytes → Bytes → Bytes → Bytes → Bytes → Option Bytes
  -- `none` is `TypeError` or `ValueError`
  pub dumps : Fields → Option Bytes
  pub loads : Bytes → Option Json

pub data ArchiveError : Type 0 where
  wrong_key_size invalid_metadata metadata_size not_an_archive : ArchiveError
  unsupported_version truncated no_payload authentication_error : ArchiveError

-- `struct.pack(">I", n)` and `unpack`
unfoldable pub pack : ℕ → Bytes
pack n = n / 16_777_216 % 256 ∷ n / 65_536 % 256 ∷ n / 256 % 256 ∷ n % 256 ∷ []

unfoldable pub unpack : Bytes → ℕ
unpack (a ∷ b ∷ c ∷ d ∷ []) = ((a * 256 + b) * 256 + c) * 256 + d
unpack _ = 0

abbrev pub sized_metadata : Option Bytes → Result ArchiveError Bytes
sized_metadata none = err invalid_metadata
sized_metadata (some value) =
    if is_empty value || ltb max_metadata_bytes (length value) then err metadata_size else ok value

-- the header, without the metadata
unfoldable pub header_of : Bytes → ℕ → Bytes
unfolding pack
header_of nonce size = magic ++ 1 ∷ (nonce ++ pack size)

module _ (l : ArchiveLibraries) where
  -- `_metadata_bytes`
  abbrev pub metadata_bytes : Fields → Result ArchiveError Bytes
  metadata_bytes metadata = sized_metadata (l.dumps metadata)

  abbrev pub archive_of : Bytes → Bytes → Bytes → Bytes → Bytes
  archive_of key nonce source encoded =
      let header : Bytes = header_of nonce (length encoded) in
      let (ciphertext, tag) = l.seal key nonce (header ++ encoded) source in
      header ++ (encoded ++ (ciphertext ++ tag))

  -- `encrypt_stream`; `nonce` is what `os.urandom(12)` returned
  unfoldable pub encrypt_stream : Bytes → Bytes → Fields → Bytes → Result ArchiveError Bytes
  unfolding header_of
  encrypt_stream key nonce metadata source =
      if not (length key == 32)
      then err wrong_key_size
      else metadata_bytes metadata >>= λ encoded. ok (archive_of key nonce source encoded)

  -- the payload, once the metadata are read: `rest` is what follows them
  abbrev pub decrypt_payload :
      Bytes → Bytes → Bytes → Fields → Bytes → Result ArchiveError (Bytes × Fields)
  decrypt_payload key nonce aad metadata rest =
      let size : ℕ = length rest - 16 in
      if leb (length rest) 16
      then err no_payload
      else or_raise (l.unseal key nonce (drop size rest) aad (take size rest)) authentication_error
        >>= λ source. ok (source, metadata)

  abbrev pub with_document :
      Bytes → Bytes → Bytes → Bytes → Option Json → Result ArchiveError (Bytes × Fields)
  with_document key nonce aad rest (some (object fs)) = decrypt_payload key nonce aad fs rest
  with_document key nonce aad rest _ = err invalid_metadata

  abbrev pub with_metadata : Bytes → Bytes → Bytes → ℕ → Result ArchiveError (Bytes × Fields)
  with_metadata key header body size =
      let encoded : Bytes = take size body in
      if leb 1 size && leb size max_metadata_bytes
      then (if length encoded == size
          then with_document key (take 12 (drop 17 header)) (header ++ encoded) (drop size body)
              (l.loads encoded)
          else err truncated)
      else err metadata_size

  -- `decrypt_to_temporary`: the content of the temporary file, and the metadata
  unfoldable pub decrypt_archive : Bytes → Bytes → Result ArchiveError (Bytes × Fields)
  unfolding unpack
  decrypt_archive key archive =
      let header : Bytes = take 33 archive in
      if not (length key == 32)
      then err wrong_key_size
      else if not (length header == 33) || not (starts_with magic header)
      then err not_an_archive
      else if not (take 1 (drop 16 header) == 1 ∷ [])
      then err unsupported_version
      else with_metadata key header (drop 33 archive) (unpack (drop 29 header))
