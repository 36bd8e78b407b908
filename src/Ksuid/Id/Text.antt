-- ===== src/Ksuid/Id/Text.antt =====
-- `chronoid_ksuid_parse` and `chronoid_ksuid_format`.
use libchronoid.Prelude.{
  ℕ, ◌≡◌, ◌≢◌, ◌==◌, ◌∙◌, refl, ap, inl, inr, List, some, arith, length, replicate, IsArray,
  AllBelow, Bool-cases,
}
use libchronoid.Arch.{Arch}
use libchronoid.Ksuid.Types.{Ksuid, IsKsuid, KsuidErr, ok}
use libchronoid.Ksuid.Base62.{base62_decode}
use libchronoid.Ksuid.Base62.RoundTrip.{base62_decode-base62_encode, base62_encode-base62_decode}
use libchronoid.Ksuid.Id.{ksuid_parse, ksuid_format, commit}

-- `chronoid_ksuid_format` writes 27 bytes for every identifier, and these parse to it on every
-- build, whatever the buffers, of their sizes, held.
pub ksuid_parse-ksuid_format :
    (arch : Arch) (id tmp out : Ksuid) (buf : List ℕ)
    → IsKsuid id
    → length tmp.b ≡ 20
    → length buf ≡ 27
    → (s : List ℕ) × (ksuid_format id buf ≡ some s)
      × IsArray 27 s
      × (ksuid_parse arch tmp out s 27 ≡ (ok, id))
unfolding ksuid_parse ksuid_format
ksuid_parse-ksuid_format arch id tmp out buf h size buf_size =
    let (s, encoded, array, decoded) =
      base62_decode-base62_encode arch id.b buf tmp.b h buf_size size in
    (s, encoded, array, ap (λ (r : KsuidErr × List ℕ). commit r.0 r.1 out) decoded)

committed :
    (e : KsuidErr) (b : List ℕ) (out id : Ksuid)
    → commit e b out ≡ (ok, id)
    → ◌≡◌ {A = KsuidErr × List ℕ} (e, b) (ok, id.b)
committed e b out id h = ground arith

-- 27 bytes that parse, on any build, are the text that `chronoid_ksuid_format` writes for the
-- identifier that they parse to: the text of an identifier is unique.
pub ksuid_format-ksuid_parse :
    (arch : Arch) (tmp out id : Ksuid) (s buf : List ℕ)
    → IsArray 27 s
    → length tmp.b ≡ 20
    → length buf ≡ 27
    → ksuid_parse arch tmp out s 27 ≡ (ok, id)
    → IsKsuid id × (ksuid_format id buf ≡ some s)
unfolding ksuid_parse ksuid_format
ksuid_format-ksuid_parse arch tmp out id s buf h size buf_size e =
    base62_encode-base62_decode arch buf tmp.b h buf_size size
      (committed (base62_decode arch tmp.b s).0 (base62_decode arch tmp.b s).1 out id e)

-- A call of `chronoid_ksuid_parse` that fails leaves `*out` untouched.
pub ksuid_parse-untouched :
    (arch : Arch) (tmp out : Ksuid) (s : List ℕ) (n : ℕ)
    → (ksuid_parse arch tmp out s n).0 ≢ ok
    → (ksuid_parse arch tmp out s n).1 ≡ out
unfolding ksuid_parse
ksuid_parse-untouched arch tmp out s n e = ground arith

-- What parses to an identifier parses to a valid one, whatever the length.
pub ksuid_parse-IsKsuid :
    (arch : Arch) (tmp out id : Ksuid) (s : List ℕ)
    → AllBelow 256 s
    → length tmp.b ≡ 20
    → ksuid_parse arch tmp out s (length s) ≡ (ok, id)
    → IsKsuid id
unfolding ksuid_parse
ksuid_parse-IsKsuid arch tmp out id s h size e = elim (Bool-cases (length s == 27)) [
  | inl same ↦
      (ksuid_format-ksuid_parse arch tmp out id s (replicate 27 0)
        (record { size = ground (arith, same); bytes = h }) size refl
        (ap (ksuid_parse arch tmp out s) {x = 27} {y = length s} (ground (arith, same)) ∙ e)).0
  | inr other ↦ absurd (ground (arith, other, e))
]
