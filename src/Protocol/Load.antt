-- ===== src/Protocol/Load.antt =====
-- protocol/load.go: a protocol file, decoded, validated and digested.
use judgekit.Base.{
  ◌≡◌, refl, sym, subst, ◌↔◌, Result, ok, wrap, ◌>>=◌, ◌>>◌, >>=-eq-ok, wrap-eq-ok, wrap_iff,
}
use judgekit.Base.Text.{Bytes}
use judgekit.CanonicalJson.{Platform, JsonError, digest_text}
use judgekit.Files.{FileDecoders, DecodeError, decode_file}
use judgekit.Files.Formats.{Decodes, decode_file_iff}
use judgekit.Protocol.Types.{Protocol, ProtocolDocument}
use judgekit.Protocol.Digest.{semantic_digest}
use judgekit.Protocol.Validate.{ProtocolError, validate}
use judgekit.Protocol.WellFormed.{IsProtocol, validate-IsProtocol}

pub data LoadError : Type 0 where
  not_read : Bytes → LoadError
  not_decoded : DecodeError → LoadError
  not_valid : ProtocolError → LoadError
  no_digest : JsonError → LoadError

module _ (platform : Platform) (decoders : FileDecoders Protocol) where
  unfoldable pub byte_digest : Bytes → Bytes
  unfolding digest_text
  byte_digest raw = digest_text platform raw

  -- `decodeProtocol`, the same code as that of a contract.
  abbrev pub decode_protocol : (path raw : Bytes) → Result DecodeError Protocol
  decode_protocol = decode_file decoders

  -- `LoadProtocolFromBytes`
  unfoldable pub load_protocol_from_bytes : (path raw : Bytes) → Result LoadError ProtocolDocument
  unfolding semantic_digest byte_digest
  load_protocol_from_bytes path raw = do
    p ← wrap not_decoded (decode_protocol path raw)
    wrap not_valid (validate p)
    digest ← wrap no_digest (semantic_digest platform p)
    ok (record { protocol = p; digest = digest; byte_digest = byte_digest raw; path = path })

  -- `LoadProtocol`; a file that cannot be read gives a text.
  unfoldable pub load_protocol :
      (read_file : Bytes → Result Bytes Bytes) → (path : Bytes) → Result LoadError ProtocolDocument
  unfolding load_protocol_from_bytes
  load_protocol read_file path = do
    raw ← wrap not_read (read_file path)
    load_protocol_from_bytes path raw

  -- What the document of a file is.
  pub record IsDocument (path raw : Bytes) (d : ProtocolDocument) : Type 0 where
    pub decoded : Decodes decoders path raw d.protocol
    pub valid : IsProtocol d.protocol
    pub identified : semantic_digest platform d.protocol ≡ ok d.digest
    pub digested : d.byte_digest ≡ byte_digest raw
    pub located : d.path ≡ path

  from_bytes-IsDocument :
      (path raw : Bytes) {d : ProtocolDocument}
      → load_protocol_from_bytes path raw ≡ ok d
      → IsDocument path raw d
  unfolding load_protocol_from_bytes
  from_bytes-IsDocument path raw {d} e =
      let (p, decoded, e₁) = >>=-eq-ok (wrap not_decoded (decode_protocol path raw)) _ e in
      let (_, valid, e₂) = >>=-eq-ok (wrap not_valid (validate p)) _ e₁ in
      let (digest, made, e₃) = >>=-eq-ok (wrap no_digest (semantic_digest platform p)) _ e₂ in
      let same : record {
        protocol = p;
        digest = digest;
        byte_digest = byte_digest raw;
        path = path;
      }
          ≡ d =
        cc in
      subst (IsDocument path raw) same (record {
        decoded = (decode_file_iff decoders path raw _).0 (wrap-eq-ok not_decoded _ decoded);
        valid = (validate-IsProtocol p).0 ((wrap_iff not_valid _).0 valid);
        identified = wrap-eq-ok no_digest _ made;
        digested = refl;
        located = refl;
      })

  IsDocument-from_bytes :
      (path raw : Bytes) {d : ProtocolDocument}
      → IsDocument path raw d
      → load_protocol_from_bytes path raw ≡ ok d
  unfolding load_protocol_from_bytes
  IsDocument-from_bytes path raw {d} h =
      let valid = (wrap_iff not_valid _).1 ((validate-IsProtocol d.protocol).1 h.valid) in
      rw ((decode_file_iff decoders path raw d.protocol).1 h.decoded)
        (rw valid (rw h.identified (rw (sym h.digested) (rw (sym h.located) refl))))

  -- A protocol file is loaded exactly if it can be read, its path ends in `.json`, in any case, and its
  -- bytes hold one JSON value and nothing behind it, or its path ends in `.yaml` or `.yml` and its
  -- bytes hold a YAML value, and the value is a well-formed protocol that has a digest. The document
  -- then holds this protocol, its semantic digest, the digest of the bytes, and the path.
  pub load_protocol_iff :
      (read_file : Bytes → Result Bytes Bytes) (path : Bytes) (d : ProtocolDocument)
      → (load_protocol read_file path ≡ ok d)
        ↔ ((raw : Bytes) × (read_file path ≡ ok raw) × IsDocument path raw d)
  unfolding load_protocol
  load_protocol_iff read_file path d = (
    λ e.
        let (raw, read, e₁) = >>=-eq-ok (wrap not_read (read_file path)) _ e in
        (raw, wrap-eq-ok not_read _ read, from_bytes-IsDocument path raw e₁),
    λ (raw, read, h). rw read (IsDocument-from_bytes path raw h),
  )
