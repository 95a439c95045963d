-- ===== src/IrcBridge/Fields.antt =====
-- wlms/ircbridge.go: strings.Fields, which splits the list of nicknames.
use widelands_metaserver.Base.{
  ℕ, zero, suc, ◌&&◌, ◌||◌, List, [], ◌∷◌, ◌++◌, leb, ◌==◌, if◌then◌else◌, Bytes,
}

-- The number of bytes of the white space at the start of a text, 0 if it starts with something else:
-- unicode.IsSpace of the first character, in UTF-8.
unfoldable pub space_width : Bytes → ℕ
space_width [] = 0
space_width (a ∷ r) = if (a == 32) || (leb 9 a && leb a 13) then 1 else elim r [
  | [] ↦ 0
  | b ∷ r' ↦ if (a == 194) && ((b == 133) || (b == 160)) then 2 else elim r' [
    | [] ↦ 0
    | c ∷ _ ↦
        if ((a == 225) && ((b == 154) && (c == 128)))
          || (((a == 226)
                && (((b == 128)
                      && (leb 128 c && leb c 138 || ((c == 168) || ((c == 169) || (c == 175)))))
                    || ((b == 129) && (c == 159))))
              || ((a == 227) && ((b == 128) && (c == 128))))
        then 3
        else 0
  ]
]

-- A field that is not empty is kept.
abbrev keep : Bytes → List Bytes → List Bytes
keep [] fs = fs
keep (c ∷ cs) fs = (c ∷ cs) ∷ fs

-- The fields, with the field that is being read and the bytes of white space that are still to be dropped.
unfoldable pub fields_from : ℕ → Bytes → Bytes → List Bytes
fields_from n field [] = keep field []
fields_from (suc n) field (c ∷ cs) = fields_from n field cs
fields_from zero field (c ∷ cs) =
    let inside = fields_from zero (field ++ (c ∷ [])) cs in
    elim (space_width (c ∷ cs)) [ zero ↦ inside | suc n ↦ keep field (fields_from n [] cs) ]

-- strings.Fields
unfoldable pub fields : Bytes → List Bytes
fields m = fields_from 0 [] m
