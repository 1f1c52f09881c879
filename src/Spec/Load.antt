-- ===== src/Spec/Load.antt =====
-- spec/load.go: a contract file, decoded, validated and digested.
use judgekit.Base.{
  ◌≡◌, refl, sym, subst, ◌↔◌, Result, ok, wrap, ◌>>=◌, ◌>>◌, >>=-eq-ok, wrap-eq-ok, wrap_iff,
}
use judgekit.Base.Text.{Bytes}
use judgekit.CanonicalJson.{Platform, JsonError}
use judgekit.Files.{FileDecoders, DecodeError, decode_file}
use judgekit.Files.Formats.{Decodes, decode_file_iff}
use judgekit.Spec.Types.{MeasurementContract, ContractDocument}
use judgekit.Spec.Digest.{semantic_digest, byte_digest}
use judgekit.Spec.Validate.{SpecError, validate_contract}
use judgekit.Spec.WellFormed.{IsContract, validate_contract_iff}

pub data LoadError : Type 0 where
  not_read : Bytes → LoadError
  not_decoded : DecodeError → LoadError
  not_valid : SpecError → LoadError
  no_digest : JsonError → LoadError

module _ (platform : Platform) (decoders : FileDecoders MeasurementContract) where
  -- `LoadContractFromBytes`
  unfoldable pub load_contract_from_bytes : (path raw : Bytes) → Result LoadError ContractDocument
  unfolding semantic_digest byte_digest
  load_contract_from_bytes path raw = do
    c ← wrap not_decoded (decode_file decoders path raw)
    wrap not_valid (validate_contract c)
    digest ← wrap no_digest (semantic_digest platform c)
    ok (record {
      contract = c;
      digest = digest;
      byte_digest = byte_digest platform raw;
      path = path;
    })

  -- `LoadContract`; a file that cannot be read gives a text.
  unfoldable pub load_contract :
      (read_file : Bytes → Result Bytes Bytes) → (path : Bytes) → Result LoadError ContractDocument
  unfolding load_contract_from_bytes
  load_contract read_file path = do
    raw ← wrap not_read (read_file path)
    load_contract_from_bytes path raw

  -- What the document of a file is.
  pub record IsDocument (path raw : Bytes) (d : ContractDocument) : Type 0 where
    pub decoded : Decodes decoders path raw d.contract
    pub valid : IsContract d.contract
    pub identified : semantic_digest platform d.contract ≡ ok d.digest
    pub digested : d.byte_digest ≡ byte_digest platform raw
    pub located : d.path ≡ path

  from_bytes-IsDocument :
      (path raw : Bytes) {d : ContractDocument}
      → load_contract_from_bytes path raw ≡ ok d
      → IsDocument path raw d
  unfolding load_contract_from_bytes
  from_bytes-IsDocument path raw {d} e =
      let (c, decoded, e₁) = >>=-eq-ok (wrap not_decoded (decode_file decoders path raw)) _ e in
      let (_, valid, e₂) = >>=-eq-ok (wrap not_valid (validate_contract c)) _ e₁ in
      let (digest, made, e₃) = >>=-eq-ok (wrap no_digest (semantic_digest platform c)) _ e₂ in
      let same : record {
        contract = c;
        digest = digest;
        byte_digest = byte_digest platform raw;
        path = path;
      }
          ≡ d =
        cc in
      subst (IsDocument path raw) same (record {
        decoded = (decode_file_iff decoders path raw _).0 (wrap-eq-ok not_decoded _ decoded);
        valid = (validate_contract_iff c).0 ((wrap_iff not_valid _).0 valid);
        identified = wrap-eq-ok no_digest _ made;
        digested = refl;
        located = refl;
      })

  IsDocument-from_bytes :
      (path raw : Bytes) {d : ContractDocument}
      → IsDocument path raw d
      → load_contract_from_bytes path raw ≡ ok d
  unfolding load_contract_from_bytes
  IsDocument-from_bytes path raw {d} h =
      let valid = (wrap_iff not_valid _).1 ((validate_contract_iff d.contract).1 h.valid) in
      rw ((decode_file_iff decoders path raw d.contract).1 h.decoded)
        (rw valid (rw h.identified (rw (sym h.digested) (rw (sym h.located) refl))))

  -- A contract file is loaded exactly if it can be read, its path ends in `.json`, in any case, and its
  -- bytes hold one JSON value and nothing behind it, or its path ends in `.yaml` or `.yml` and its
  -- bytes hold a YAML value, and the value is a well-formed contract that has a digest. The document
  -- then holds this contract, its semantic digest, the digest of the bytes, and the path.
  pub load_contract_iff :
      (read_file : Bytes → Result Bytes Bytes) (path : Bytes) (d : ContractDocument)
      → (load_contract read_file path ≡ ok d)
        ↔ ((raw : Bytes) × (read_file path ≡ ok raw) × IsDocument path raw d)
  unfolding load_contract
  load_contract_iff read_file path d = (
    λ e.
        let (raw, read, e₁) = >>=-eq-ok (wrap not_read (read_file path)) _ e in
        (raw, wrap-eq-ok not_read _ read, from_bytes-IsDocument path raw e₁),
    λ (raw, read, h). rw read (IsDocument-from_bytes path raw h),
  )
