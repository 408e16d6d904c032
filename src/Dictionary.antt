-- ===== src/Dictionary.antt =====
-- hw6/part3: a dictionary in a file of records of fixed length, with what the programs share.
pub mod Convert
pub mod Lookup
pub mod Remote
pub mod Tests
use nsysu_network_applicatio.Prelude.{ℕ, zero, suc, Bytes, List, [], ◌∷◌, ◌++◌, replicate, codes}

abbrev pub newline : ℕ
newline = 10

abbrev pub space : ℕ
space = 32

-- A word and the lines of its definition, which end in no newline here.
abbrev pub Entry : Type 0
Entry = Bytes × List Bytes

-- A field as it is written to the file: spaces behind the string, up to the size of the field.
unfoldable pub padded : ℕ → Bytes → Bytes
padded n [] = replicate n space
padded zero (c ∷ s) = c ∷ s
padded (suc n) (c ∷ s) = c ∷ padded n s
