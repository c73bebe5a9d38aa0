-- ===== src/Codec/Negotiation.antt =====
-- crates/gravital-talk-codec/src/negotiation.rs, with the features of the build as an argument.
use gravital_sound.Common.{
  Bool, true, false, ◌||◌, ◌==◌, if◌then◌else◌, List, [], ◌∷◌, Result, ok, err,
}
use gravital_sound.Codec.{CodecId, pcm, opus, other, CodecError, unsupported}

-- `supported`
abbrev pub supported : Bool → List CodecId
supported true = opus ∷ pcm ∷ []
supported false = pcm ∷ []

-- The derived `==`.
abbrev pub same_codec : CodecId → CodecId → Bool
same_codec pcm pcm = true
same_codec opus opus = true
same_codec (other a) (other b) = a == b
same_codec a b = false

abbrev pub contains_id : List CodecId → CodecId → Bool
contains_id [] id = false
contains_id (x ∷ xs) id = same_codec x id || contains_id xs id

-- `first().copied().ok_or(..)`
abbrev pub first_or : List CodecId → CodecError → Result CodecError CodecId
first_or [] e = err e
first_or (x ∷ xs) e = ok x

-- `negotiate`
unfoldable pub negotiate : Bool → CodecId → Result CodecError CodecId
negotiate opus_built client_preferred =
    let local = supported opus_built in
    if contains_id local client_preferred
    then ok client_preferred
    else first_or local (unsupported client_preferred)
