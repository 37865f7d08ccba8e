-- ===== src/External/SampleHashes.antt =====
-- Hash functions for the tests: a header's hash is its nonce, and its text has so many characters.
use Prim.Native.String.{String}
use reorg_playground.Prelude.{ℕ, zero, suc, ◌≡◌, refl, ap, Option, some}
use reorg_playground.External.Bitcoin.{Bitcoin}

abbrev pub tally : ℕ → String
tally zero = String.[]
tally (suc n) = String.◌∷◌ "x" (tally n)

abbrev count_marks : String → ℕ
count_marks String.[] = 0
count_marks (String.◌∷◌ c s) = suc (count_marks s)

count_marks-tally : (n : ℕ) → count_marks (tally n) ≡ n
count_marks-tally zero = refl
count_marks-tally (suc n) = ap suc (count_marks-tally n)

pub read_tally : (n : ℕ) → ◌≡◌ {A = Option ℕ} (some (count_marks (tally n))) (some n)
read_tally n = ap some (count_marks-tally n)

instance abbrev pub sample_hashes : Bitcoin
sample_hashes = record {
  block_hash = λ h. h.nonce;
  to_string = tally;
  from_str = λ s. some (count_marks s);
  merkle_to_string = tally;
  difficulty_int = λ h. 1;
  from_str-to_string = read_tally;
}
