-- ===== src/Gguf/Metadata.antt =====
-- src/gguf.rs: the lookup of a text in the metadata. The lossy decoding of UTF-8 is a parameter.
pub mod Encoded
use homeassistant_local_voic.Base.{
  ℕ, zero, suc, Bool, true, false, Option, none, some, List, ◌&&◌, ◌==◌, if◌then◌else◌,
}
use homeassistant_local_voic.Base.Result.{Result, ok, err}
use homeassistant_local_voic.Base.Text.{Text, text_eq}
use homeassistant_local_voic.Gguf.{
  Run, failed, done, out_of_fuel, Reader, pure, ◌>>=◌, ◌>>◌, string, u32, u64, read_string,
  skip_value, counts, fuel,
}
use homeassistant_local_voic.Gguf.Size.{value_of}

module _ (from_utf8_lossy : List ℕ → Text) (file : List ℕ) (seek_failed : Text)
    (max_offset : ℕ) where
  -- `wanted` is given by its bytes.
  unfoldable pub find_string : List ℕ → ℕ → Reader (Option Text)
  find_string wanted zero = pure none
  find_string wanted (suc kvs) = do
    key ← read_string file seek_failed max_offset
    t ← u32 file seek_failed max_offset
    if text_eq key wanted && t == string
        then (do
          value ← read_string file seek_failed max_offset
          pure (some (from_utf8_lossy value)))
        else (do
          skip_value file seek_failed max_offset (fuel file seek_failed max_offset) t
          find_string wanted kvs)

  unfoldable pub read_metadata : List ℕ → Reader (Option Text)
  read_metadata wanted = do
    (tensors, kvs) ← counts file seek_failed max_offset
    find_string wanted kvs

module _ (from_utf8_lossy : List ℕ → Text) (seek_failed : Text) (max_offset : ℕ) where
  -- `opened` is what opening the path gives.
  unfoldable pub metadata_string : Result (List ℕ) → List ℕ → Run (Option Text)
  metadata_string (err message) wanted = failed message
  metadata_string (ok file) wanted =
      value_of (read_metadata from_utf8_lossy file seek_failed max_offset wanted 0)
