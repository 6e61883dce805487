-- ===== src/Manifest/Raw.antt =====
-- `RawManifest::parse` of crates/abra-core/src/manifest.rs and `validate_canonical` of
-- crates/abra-core/src/canonical.rs.
use abra.Crates.{Crates}
use abra.Prelude.{
  ◌≡◌, refl, ap, ◌∙◌, Bytes, ascii, ◌++◌, not, is_some, Option, none, some, [], ◌∷◌, take, ◌==◌,
  nat_eq, bytes_eq, list_beq_iff, Result, ok, invalid, ◌>>=◌, ◌>>◌, >>=-eq-ok, >>-parts, refuse_if,
  ok_or, arith,
}
use abra.Canonical.Value.{
  Value, null, bool, number, string, array, object, Fields, remove_field, get_field, validate_value,
}
use abra.Canonical.Write.{write, to_vec}
use mathlib.Core.Path.{subst}
use abra.Identity.{verify}
use abra.Manifest.Schema.{Manifest, RawManifest}
use abra.Manifest.Encode.{manifest_fields}
use abra.Manifest.Check.{validate_schema}

-- What serde_json reads
pub record Serde : Type 0 where
  -- one value, with nothing behind it
  pub parse_value : Bytes → Result Value
  pub parse_manifest : Bytes → Result Manifest

-- `as_object_mut`
abbrev pub as_object : Value → Option Fields
as_object (object m) = some m
as_object v = none

as_object-eq : (v : Value) (m : Fields) → as_object v ≡ some m → v ≡ object m
as_object-eq (object m) n h = ground arith
as_object-eq null n h = cc
as_object-eq (bool b) n h = cc
as_object-eq (number x) n h = cc
as_object-eq (string s) n h = cc
as_object-eq (array xs) n h = cc

abbrev pub byte_order_mark : Bytes
byte_order_mark = 239 ∷ (187 ∷ (191 ∷ []))

-- The bytes that are hashed to a snapshot's id
abbrev pub snapshot_preimage : Bytes → Bytes
snapshot_preimage unsigned = ascii "abra-snap-v1" ++ (0 ∷ unsigned)

module _ ⦃c : Crates⦄ ⦃serde : Serde⦄ where
  unfoldable pub validate_canonical : Bytes → Result Value
  validate_canonical bytes = do
    refuse_if (take 3 bytes == byte_order_mark) (invalid "JSON BOM")
    value ← serde.parse_value bytes
    validate_value value
    canonical ← write value
    refuse_if (not (canonical == bytes)) (invalid "noncanonical Abra-CJSON bytes")
    ok value

  -- `parse`
  unfoldable pub parse_raw : Bytes → Result RawManifest
  parse_raw bytes = do
    value ← validate_canonical bytes
    m ← serde.parse_manifest bytes
    validate_schema m
    encoded ← to_vec (object (manifest_fields m))
    refuse_if (not (encoded == bytes))
        (invalid "manifest bytes are not the canonical encoding of this manifest")
    fields ← ok_or (as_object value) (invalid "manifest is not an object")
    refuse_if (not (is_some (get_field fields (ascii "signature"))))
        (invalid "manifest lacks signature")
    unsigned ← to_vec (object (remove_field fields (ascii "signature")))
    verify m.origin.peer_id (ascii "snapshot") unsigned m.signature
    ok (record { bytes = bytes; manifest = m; id = c.blake3 (snapshot_preimage unsigned) })

  -- A manifest with its bytes: they are its canonical encoding, its origin has signed them without
  -- the signature, and the id is their digest.
  pub record IsAuthentic (bytes : Bytes) (raw : RawManifest) : Type 0 where
    pub same : raw.bytes ≡ bytes
    pub valid : validate_schema raw.manifest ≡ ok tt
    pub encoded : to_vec (object (manifest_fields raw.manifest)) ≡ ok bytes
    pub fields : Fields
    pub read : validate_canonical bytes ≡ ok (object fields)
    pub unsigned : Bytes
    pub stripped : to_vec (object (remove_field fields (ascii "signature"))) ≡ ok unsigned
    pub signed :
        verify raw.manifest.origin.peer_id (ascii "snapshot") unsigned raw.manifest.signature
        ≡ ok tt
    pub digest : raw.id ≡ c.blake3 (snapshot_preimage unsigned)

  pub parse_raw-IsAuthentic :
      (bytes : Bytes) (raw : RawManifest) → parse_raw bytes ≡ ok raw → IsAuthentic bytes raw
  unfolding parse_raw
  parse_raw-IsAuthentic bytes raw h =
      let (value, read, h0) = >>=-eq-ok (validate_canonical bytes) _ h in
      let (m, typed, h1) = >>=-eq-ok (serde.parse_manifest bytes) _ h0 in
      let (valid, h2) = >>-parts (validate_schema m) _ h1 in
      let (encoded, coded, h3) = >>=-eq-ok (to_vec (object (manifest_fields m))) _ h2 in
      let (exact, h4) = >>-parts (refuse_if (not (encoded == bytes)) _) _ h3 in
      let (fields, at, h5) = >>=-eq-ok (ok_or (as_object value) _) _ h4 in
      let (present, h6) =
        >>-parts (refuse_if (not (is_some (get_field fields (ascii "signature")))) _) _ h5 in
      let (unsigned, stripped, h7) =
        >>=-eq-ok (to_vec (object (remove_field fields (ascii "signature")))) _ h6 in
      let (signed, h8) =
        >>-parts (verify m.origin.peer_id (ascii "snapshot") unsigned m.signature) _ h7 in
      let equal : encoded ≡ bytes = ground (arith, exact, list_beq_iff encoded bytes) in
      let made : RawManifest = record {
        bytes = bytes;
        manifest = m;
        id = c.blake3 (snapshot_preimage unsigned);
      } in
      let is : made ≡ raw = ground (arith, h8) in
      let authentic : IsAuthentic bytes made = record {
        same = refl;
        valid = valid;
        encoded = coded ∙ ap ok equal;
        fields = fields;
        read = read ∙ ap ok (as_object-eq value fields (ground (arith, at)));
        unsigned = unsigned;
        stripped = stripped;
        signed = signed;
        digest = refl;
      } in
      subst (λ r. IsAuthentic bytes r) is authentic
