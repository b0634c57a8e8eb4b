-- ===== src/Git/Tar.antt =====
-- crates/ctxfs-provider-git/src/github.rs: what is checked of a downloaded archive, its entries'
-- paths (`validate_tar_entry_path`) and the redirect to it (`validate_redirect_target`). The UTF-8
-- test and the parser of URLs are parameters.
pub mod Safe
use ctxfs.Common.{
  ℕ, Bool, true, false, Option, none, some, Result, ok, err, List, [], ◌∷◌, ◌++◌, Text, text,
  Text-discrete, ltb, ◌==◌, if◌then◌else◌, holds, split, not,
}
use ctxfs.Core.Error.{CtxfsError, provider}
use ctxfs.Core.Source.{split_once}
use ctxfs.Git.Tree.{Utf8}

-- `tar::EntryType`, as far as it is told apart.
pub data EntryType : Type 0 where
  directory : EntryType
  other : EntryType

unfoldable pub any_byte : (ℕ → Bool) → Text → Bool
any_byte p [] = false
any_byte p (b ∷ bs) = let rest = any_byte p bs in if p b then true else rest

abbrev pub is_nul : ℕ → Bool
is_nul b = b == 0

-- Below 128 a character is its byte, and all other bytes are at least 128.
abbrev pub is_control : ℕ → Bool
is_control b = ltb b 32

unfoldable pub starts_with_slash : Text → Bool
starts_with_slash [] = false
starts_with_slash (b ∷ bs) = b == b'/'

unfoldable pub has_dot_dot : List Text → Bool
has_dot_dot [] = false
has_dot_dot (seg ∷ segs) =
    let rest = has_dot_dot segs in if holds (Text-discrete seg (text "..")) then true else rest

-- The tests on the whole path, in their order.
unfoldable pub tar_path_error : Utf8 → Text → Option CtxfsError
tar_path_error utf8 raw = elim (utf8 raw) [
  | some e ↦ some (provider (text "tar entry path is not UTF-8"))
  | none ↦
      if any_byte is_nul raw
      then some (provider (text "tar entry path contains NUL"))
      else if starts_with_slash raw
      then some (provider (text "tar entry is absolute: " ++ raw))
      else if any_byte is_control raw
      then some (provider (text "tar entry has control chars: " ++ raw))
      else if has_dot_dot (split b'/' raw)
      then some (provider (text "tar entry contains '..': " ++ raw))
      else none
]

-- The wrapper itself.
unfoldable pub wrapper_path : Text → EntryType → Result Text CtxfsError
wrapper_path raw directory = ok []
wrapper_path raw other = err (provider (text "tar entry not under wrapper dir: " ++ raw))

unfoldable pub strip_wrapper : Text → EntryType → Result Text CtxfsError
strip_wrapper raw entry_type = elim (split_once b'/' raw) [
  | none ↦ wrapper_path raw entry_type
  | some (wrapper, []) ↦ wrapper_path raw entry_type
  | some (wrapper, c ∷ cs) ↦ ok (c ∷ cs)
]

unfoldable pub validate_tar_entry_path : Utf8 → Text → EntryType → Result Text CtxfsError
validate_tar_entry_path utf8 raw entry_type = elim (tar_path_error utf8 raw) [
  | some e ↦ err e
  | none ↦ strip_wrapper raw entry_type
]

unfoldable pub codeload_host_for : Text → Text
codeload_host_for api_host =
    if holds (Text-discrete api_host (text "api.github.com"))
    then text "codeload.github.com"
    else text "codeload." ++ api_host

-- `reqwest::Url`, with the error text of its parser.
pub record Urls : Type 1 where
  pub Url : Type 0
  pub parse : Text → Result Url Text
  pub scheme : Url → Text
  pub host_str : Url → Option Text

abbrev pub text_or_empty : Option Text → Text
text_or_empty none = []
text_or_empty (some t) = t

unfoldable pub validate_redirect_target : (u : Urls) → Text → Text → Result u.Url CtxfsError
validate_redirect_target u location expected_codeload_host = elim (u.parse location) [
  | err e ↦ err (provider (text "invalid redirect URL: " ++ e))
  | ok url ↦
      if not (holds (Text-discrete (u.scheme url) (text "https")))
      then err (
          provider
            (text "tarball redirect rejected: scheme=" ++ (u.scheme url ++ text " is not https")))
      else if not (holds (Text-discrete (text_or_empty (u.host_str url)) expected_codeload_host))
      then err (
          provider (
            text "tarball redirect rejected: host "
            ++ (text_or_empty (u.host_str url)
                ++ (text " is not codeload host " ++ expected_codeload_host))))
      else ok url
]
