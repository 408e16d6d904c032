-- ===== src/Shell/Words.antt =====
-- Vocabulary on lists of words that the specifications of the shells share.
use nsysu_network_applicatio.Prelude.{
  Bool, true, false, Bytes, str_eq, List, [], ◌∷◌, if◌then◌else◌,
}

unfoldable pub contains : Bytes → List Bytes → Bool
contains w [] = false
contains w (t ∷ ts) = if str_eq t w then true else contains w ts

-- drops the first word that is `w`
unfoldable pub remove_first : Bytes → List Bytes → List Bytes
remove_first w [] = []
remove_first w (t ∷ ts) = if str_eq t w then ts else t ∷ remove_first w ts
