-- ===== src/Routing/Versioning.antt =====
-- runtime/versioning.py: the versions of routes and of requests. A request is its table of headers,
-- which the transport reads.
use bustan.Prelude.{
  Bool, true, false, ◌||◌, Option, none, some, List, [], ◌∷◌, nat_eq, list_eq, Text, contains,
  if◌then◌else◌, strip, split, after, has_prefix,
}

-- `VersioningType`
pub data VersioningType : Type 0 where
  uri in_header media_type : VersioningType

pub record VersioningOptions : Type 0 where
  pub kind : VersioningType
  pub prefix : Text
  pub header : Text
  pub default_version : Option Text

-- `VERSION_NEUTRAL`
abbrev pub version_neutral : Text
version_neutral =
    b'_' ∷ b'_' ∷ b'V' ∷ b'E' ∷ b'R' ∷ b'S' ∷ b'I' ∷ b'O' ∷ b'N' ∷ b'_' ∷ b'N' ∷ b'E' ∷ b'U' ∷ b'T'
    ∷ b'R' ∷ b'A' ∷ b'L' ∷ b'_' ∷ b'_' ∷ []

abbrev pub is_empty : List Text → Bool
is_empty [] = true
is_empty (v ∷ versions) = false

-- `not versions or VERSION_NEUTRAL in versions`
unfoldable pub is_neutral_version : List Text → Bool
is_neutral_version versions = is_empty versions || contains versions version_neutral

abbrev accept_header : Text
accept_header = b'a' ∷ b'c' ∷ b'c' ∷ b'e' ∷ b'p' ∷ b't' ∷ []

abbrev version_parameter : Text
version_parameter = b'v' ∷ b'e' ∷ b'r' ∷ b's' ∷ b'i' ∷ b'o' ∷ b'n' ∷ b'=' ∷ []

-- `value or default`, where an empty text counts for nothing.
abbrev or_default : Option Text → Option Text → Option Text
or_default none default = default
or_default (some []) default = default
or_default (some (c ∷ text)) default = some (c ∷ text)

-- The loop over the parts of the `accept` header.
unfoldable pub version_of_parts : List Text → Option Text → Option Text
unfolding has_prefix strip after
version_of_parts [] default = default
version_of_parts (part ∷ parts) default =
    let rest = version_of_parts parts default in
    if has_prefix version_parameter (strip part) then some (after b'=' (strip part)) else rest

abbrev or_no_text : Option Text → Text
or_no_text none = []
or_no_text (some text) = text

-- `extract_request_version`
unfoldable pub extract_request_version : (Text → Option Text) → VersioningOptions → Option Text
unfolding version_of_parts split
extract_request_version headers options = elim options.kind [
  | uri ↦ options.default_version
  | in_header ↦ or_default (headers options.header) options.default_version
  | media_type ↦
      version_of_parts (split b';' (or_no_text (headers accept_header))) options.default_version
]
