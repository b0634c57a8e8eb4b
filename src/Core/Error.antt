-- ===== src/Core/Error.antt =====
-- crates/ctxfs-core/src/error.rs: the error type of the library, and its `Display`. An
-- `std::io::Error` is its text.
use ctxfs.Common.{ℕ, suc, zero, ◌+◌, ◌/◌, ◌%◌, Text, text, ltb, if◌then◌else◌, [], ◌∷◌, ◌++◌}

pub data CtxfsError : Type 0 where
  provider cache manifest ipc not_found invalid_source io : Text → CtxfsError
  rate_limited : (retry_after_secs : ℕ) → CtxfsError
  no_source_repo : (package_name registry : Text) → CtxfsError

-- The decimal digits of a number; a number has no more digits than its fuel `n + 1`.
unfoldable pub digits : ℕ → ℕ → Text
digits zero n = []
digits (suc fuel) n =
    let higher = digits fuel (n / 10) in
    if ltb n 10 then (48 + n) ∷ [] else higher ++ ((48 + n % 10) ∷ [])

unfoldable pub decimal : ℕ → Text
unfolding digits
decimal n = digits (n + 1) n

-- `Display for CtxfsError`
unfoldable pub display : CtxfsError → Text
unfolding decimal
display (provider e) = text "provider error: " ++ e
display (cache e) = text "cache error: " ++ e
display (manifest e) = text "manifest error: " ++ e
display (ipc e) = text "IPC error: " ++ e
display (not_found e) = text "not found: " ++ e
display (invalid_source e) = text "invalid source: " ++ e
display (io e) = text "I/O error: " ++ e
display (rate_limited n) = text "rate limited: retry after " ++ (decimal n ++ text "s")
display (no_source_repo package_name registry) =
    text "no source repository found for "
    ++ (registry ++ (text ":" ++ (package_name ++ text ". Try: ctxfs mount github:owner/repo@ref")))
