-- ===== src/Shell/Words/Split.antt =====
-- The words of a line.
use cmpt201_coursework.Prelude.{◌<◌, ◌≡◌, refl, true, List, arith, length, All, ltb, ok}
use cmpt201_coursework.Text.{Text}
use cmpt201_coursework.Text.Tokens.{spaced, IsWord, tokens-spaced}
use cmpt201_coursework.Shell.Words.{is_delimiter, phrase}

-- Fewer than 16 words with spaces behind them are what `phrase` makes of their line.
pub phrase-spaced :
    (ts : List Text) → All (IsWord is_delimiter) ts → length ts < 16 → phrase (spaced ts) ≡ ok ts
unfolding phrase
phrase-spaced ts w few =
    let t : ltb (length ts) 16 ≡ true = ground arith in rw (tokens-spaced is_delimiter refl ts w, t)
