-- ===== src/Tests/Files.antt =====
-- Runs of the reader of model files.
use mathlib.Core.Option
use homeassistant_local_voic.Base.{
  ◌≡◌, refl, ℕ, ◌+◌, ◌-◌, ◌^◌, ◌≤◌, ◌↔◌, Bool, true, some, List, [], ◌∷◌, ◌++◌, arith, length, All,
}
use homeassistant_local_voic.Base.Result.{ok}
use homeassistant_local_voic.Base.Bytes.{to_le}
use homeassistant_local_voic.Base.Text.{Text, codes, text_eq}
use homeassistant_local_voic.Gguf.{
  done, pure, ◌>>=◌, type_size, read_exact, bytes, u32, u64, read_string, counts,
}
use homeassistant_local_voic.Gguf.Size.{Entry, aligned, read_alignment, check}
use homeassistant_local_voic.Gguf.Size.Header.{
  Tensor, Header, here, read_dims, read_row, read_table, read_header,
}
use homeassistant_local_voic.Gguf.Size.Header.Ends.{data_start, tensor_end}
use homeassistant_local_voic.Gguf.Size.Header.Exact.{check-EndsWithin, check-saturated}
use homeassistant_local_voic.Gguf.Total.Check.{check_total}
use homeassistant_local_voic.Gguf.Metadata.{metadata_string}
use homeassistant_local_voic.Gguf.Metadata.Encoded.{text, listed, nil, cons, prefixed}
use homeassistant_local_voic.Gguf.Metadata.Encoded.Pairs.{Pair, header_bytes, first_text}
use homeassistant_local_voic.Gguf.Metadata.Encoded.RoundTrip.{metadata_string-header_bytes}

abbrev seek_failed : Text
seek_failed = codes "Invalid argument"

abbrev greatest : ℕ
greatest = 2 ^ 63 - 1

-- One tensor of four numbers of four bytes: the header has 57 bytes, and the data starts at 64.
abbrev weights : ℕ → List ℕ
weights offset =
    header_bytes 3 1 []
      (prefixed (codes "w") ++ (to_le 4 1 ++ (to_le 8 4 ++ (to_le 4 0 ++ to_le 8 offset))))

abbrev zeros : List ℕ
zeros = 0 ∷ 0 ∷ 0 ∷ 0 ∷ 0 ∷ 0 ∷ 0 ∷ []

abbrev model : List ℕ
model = weights 0 ++ (zeros ++ (1 ∷ 2 ∷ zeros ++ zeros))

abbrev at_path : List ℕ → Entry
at_path file = record {
  name = codes "m.gguf";
  is_file = true;
  opened = ok file;
  metadata_len = some (length file);
}

abbrev row : ℕ → Tensor
row offset = record { dims = 4 ∷ []; kind = 0; offset = offset }

abbrev parsed : ℕ → Header
parsed offset = record { alignment = 32; tensors = row offset ∷ []; behind = 57 }

model_header : read_header model seek_failed greatest 0 ≡ done (parsed 0, 57)
unfolding read_header counts bytes text_eq read_alignment read_table read_row read_dims read_string
    u32 u64 read_exact here pure ◌>>=◌
model_header = refl

check-EndsWithin_example : (check seek_failed greatest (at_path model) ≡ done (true, codes "")) ↔ (
    (data_start (parsed 0) ≤ length model)
    × All (λ t. data_start (parsed 0) + tensor_end t ≤ length model) (row 0 ∷ []))
unfolding aligned type_size
check-EndsWithin_example =
    check-EndsWithin seek_failed greatest (parsed 0) 57
      (record { there = refl; readable = refl; measured = refl }) model_header (omega arith)
      (omega arith)

-- Where the data would start, the file ends a byte too early; the end of the tensor is past the greatest number.
abbrev corrupt : List ℕ
corrupt = weights (2 ^ 64 - 10) ++ (0 ∷ 0 ∷ 0 ∷ 0 ∷ 0 ∷ 0 ∷ [])

corrupt_header : read_header corrupt seek_failed greatest 0 ≡ done (parsed (2 ^ 64 - 10), 57)
unfolding read_header counts bytes text_eq read_alignment read_table read_row read_dims read_string
    u32 u64 read_exact here pure ◌>>=◌
corrupt_header = refl

check-saturated_example : check seek_failed greatest (at_path corrupt) ≡ done (true, codes "")
unfolding aligned type_size
check-saturated_example =
    check-saturated seek_failed greatest (parsed (2 ^ 64 - 10)) 57 [] [] (row (2 ^ 64 - 10)) 1 4
      (record { there = refl; readable = refl; measured = refl }) corrupt_header refl refl
      (omega arith) (omega arith) (omega arith)

check_total_example :
    (b : Bool) × (printed : Text) × (check seek_failed greatest (at_path corrupt)
      ≡ done (b, printed))
check_total_example = check_total seek_failed greatest (at_path corrupt)

abbrev pairs : List Pair
pairs =
    record {
      key = codes "names";
      value = listed 9 (cons (listed 8 (cons (text (codes "a")) nil)) nil);
    }
    ∷ record { key = codes "t"; value = text (codes "hi") }
    ∷ []

metadata_string-header_bytes_example :
    metadata_string (λ b. b) seek_failed greatest (ok (header_bytes 3 0 pairs [])) (codes "t")
    ≡ done (Option.map (λ b. b) (first_text (codes "t") pairs))
unfolding text_eq
metadata_string-header_bytes_example =
    metadata_string-header_bytes (λ b. b) seek_failed greatest 3 0 pairs [] (codes "t")
      (omega arith) (omega arith) (omega arith)
      (
        record {
          short_key = omega arith;
          tagged = omega arith;
          laid = omega arith;
          short_text = tt;
        },
        (
          record {
            short_key = omega arith;
            tagged = omega arith;
            laid = omega arith;
            short_text = omega arith;
          },
          tt,
        ),
      )
      (omega arith) (omega arith)
