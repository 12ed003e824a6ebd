-- ===== src/Backup/RoundTrip.antt =====
-- scripts/backup_archive.py: a backup is restored.
use mailgate.Backup.{
  max_metadata_bytes, ArchiveLibraries, ArchiveError, header_of, archive_of, encrypt_stream,
  decrypt_payload, with_metadata, decrypt_archive,
}
use mailgate.Backup.Header.{
  take-append, drop-append, length-header_of, nonce-header_of, size-header_of, magic-header_of,
  version-header_of,
}
use mailgate.Backup.Metadata.{is_flat}
use mailgate.Common.{
  length, take, drop, is_empty, length-append, Result, ok, Bytes, ltb, leb, Bool-cases,
  Option-cases, ◌==◌, nat_eq, list_eq, option_eq, ℕ, ◌-◌, ◌≤◌, ◌<◌, ◌≡◌, refl, inl, inr, true,
  false, ◌&&◌, ◌||◌, some, [], ◌∷◌, ◌++◌, arith,
}
use mailgate.Json.{object, Fields}

-- What the libraries document: AES-GCM is authenticated and keeps the length, a tag has 16 bytes, and
-- JSON that was written with sorted keys is read, in that order.
pub record IsArchive (l : ArchiveLibraries) : Type 0 where
  pub opened :
      (key nonce aad source : Bytes)
      → l.unseal key nonce (l.seal key nonce aad source).1 aad (l.seal key nonce aad source).0
        ≡ some source
  pub tag_length : (key nonce aad source : Bytes) → length (l.seal key nonce aad source).1 ≡ 16
  pub same_length :
      (key nonce aad source : Bytes) → length (l.seal key nonce aad source).0 ≡ length source
  pub reads :
      (fs : Fields) (b : Bytes)
      → is_flat fs ≡ true
      → l.dumps fs ≡ some b
      → l.loads b ≡ some (object fs)

module _ (l : ArchiveLibraries) (good : IsArchive l) (key nonce : Bytes) where
  decrypt_payload-sealed :
      (aad source : Bytes) (fs : Fields)
      → 1 ≤ length source
      → decrypt_payload l key nonce aad fs
          ((l.seal key nonce aad source).0 ++ (l.seal key nonce aad source).1)
        ≡ ok (source, fs)
  decrypt_payload-sealed aad source fs h =
      let c : Bytes = (l.seal key nonce aad source).0 in
      let t : Bytes = (l.seal key nonce aad source).1 in
      let total = length-append c t in
      let tag = good.tag_length key nonce aad source in
      let body = good.same_length key nonce aad source in
      let size : length c ≡ length (c ++ t) - 16 = omega (arith, total, tag, body) in
      let long : leb (length (c ++ t)) 16 ≡ false = not_short _ (omega (arith, total, tag, body)) in
      rw
        (
          long,
          drop-append (length (c ++ t) - 16) c t size,
          take-append (length (c ++ t) - 16) c t size,
          good.opened key nonce aad source,
        )
        refl
    where
      not_short : (n : ℕ) → 16 < n → leb n 16 ≡ false
      not_short n h = ground arith

  with_metadata-archive :
      (header source encoded : Bytes) (fs : Fields)
      → take 12 (drop 17 header) ≡ nonce
      → is_flat fs ≡ true
      → l.dumps fs ≡ some encoded
      → 1 ≤ length encoded
      → length encoded ≤ max_metadata_bytes
      → 1 ≤ length source
      → let sealed = l.seal key nonce (header ++ encoded) source in
        with_metadata l key header (encoded ++ (sealed.0 ++ sealed.1)) (length encoded)
        ≡ ok (source, fs)
  with_metadata-archive header source encoded fs n flat written some' few given =
      let sealed = l.seal key nonce (header ++ encoded) source in
      rw
        (
          fits (length encoded) some' few,
          take-append (length encoded) encoded (sealed.0 ++ sealed.1) refl,
          drop-append (length encoded) encoded (sealed.0 ++ sealed.1) refl,
          (nat_eq.agrees (length encoded) (length encoded)).1 refl,
          good.reads fs encoded flat written,
          n,
        )
        (decrypt_payload-sealed (header ++ encoded) source fs given)
    where
      fits : (n : ℕ) → 1 ≤ n → n ≤ max_metadata_bytes → leb 1 n && leb n max_metadata_bytes ≡ true
      fits n h k = ground arith

  decrypt_archive-archive_of :
      (source encoded : Bytes) (fs : Fields)
      → length key == 32 ≡ true
      → length nonce ≡ 12
      → is_flat fs ≡ true
      → l.dumps fs ≡ some encoded
      → 1 ≤ length encoded
      → length encoded ≤ max_metadata_bytes
      → 1 ≤ length source
      → decrypt_archive l key (archive_of l key nonce source encoded) ≡ ok (source, fs)
  unfolding decrypt_archive
  decrypt_archive-archive_of source encoded fs k short flat written some' few given =
      let header : Bytes = header_of nonce (length encoded) in
      let sealed = l.seal key nonce (header ++ encoded) source in
      let rest : Bytes = encoded ++ (sealed.0 ++ sealed.1) in
      let size = length-header_of nonce (length encoded) short in
      rw
        (
          k,
          take-append 33 header rest size,
          drop-append 33 header rest size,
          (nat_eq.agrees (length header) 33).1 size,
          magic-header_of nonce (length encoded) short,
          version-header_of nonce (length encoded) short,
          size-header_of nonce (length encoded) short (omega arith),
        )
        (with_metadata-archive header source encoded fs
          (nonce-header_of nonce (length encoded) short) flat written some' few given)

some_ok : (a b : Bytes) → Path (Result ArchiveError Bytes) (ok a) (ok b) → a ≡ b
some_ok a b h = ground arith

sized :
    (value : Bytes)
    → is_empty value || ltb max_metadata_bytes (length value) ≡ false
    → (1 ≤ length value) × (length value ≤ max_metadata_bytes)
sized [] h = cc
sized (x ∷ value) h = (omega arith, within (length (x ∷ value)) h)
  where
    within : (n : ℕ) → false || ltb max_metadata_bytes n ≡ false → n ≤ max_metadata_bytes
    within n h = ground arith

pub decrypt_archive-encrypt_stream :
    (l : ArchiveLibraries)
    → IsArchive l
    → (key nonce source content : Bytes) (fs : Fields) → length nonce ≡ 12
    → 1 ≤ length source
    → is_flat fs ≡ true
    → encrypt_stream l key nonce fs source ≡ ok content
    → decrypt_archive l key content ≡ ok (source, fs)
unfolding encrypt_stream
decrypt_archive-encrypt_stream l good key nonce source content fs short given flat h =
    elim (Bool-cases (length key == 32)) [
      | inr bad ↦ cc (rw bad at h)
      | inl right ↦ elim (Option-cases (l.dumps fs)) [
        | inl none_written ↦ cc (rw (right, none_written) at h)
        | inr (encoded, written) ↦
            elim (Bool-cases (is_empty encoded || ltb max_metadata_bytes (length encoded))) [
              | inl bad ↦ cc (rw (right, written, bad) at h)
              | inr fits ↦
                  let (some', few) = sized encoded fits in
                  rw (← some_ok _ _ (rw (right, written, fits) at h)) (
                    decrypt_archive-archive_of l good key nonce source encoded fs right short flat
                      written some' few given)
            ]
      ]
    ]
