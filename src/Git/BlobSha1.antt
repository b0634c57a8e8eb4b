-- ===== src/Git/BlobSha1.antt =====
-- crates/ctxfs-provider-git/src/github.rs: `GitBlobSha1`, which hashes a blob while it streams in. The
-- hasher is the `sha1` crate's, a parameter.
use ctxfs.Common.{
  ℕ, ◌≡◌, sym, ap, ◌∙◌, Bool, true, false, List, [], ◌∷◌, ◌++◌, append_assoc, append-nil, Text,
  text, length, if◌then◌else◌,
}
use ctxfs.Common.Word.{add64}
use ctxfs.Core.Error.{decimal}

-- A hasher, and the hexadecimal digits of what it finalizes to.
pub record Sha1 : Type 1 where
  pub Hasher : Type 0
  pub new : Hasher
  pub update : List ℕ → Hasher → Hasher
  pub finalize_hex : Hasher → Text

-- What the crate documents: to update twice is to update with both inputs, one after the other.
abbrev pub Streams : Sha1 → Type 0
Streams s = (a b : List ℕ) (h : s.Hasher) → s.update b (s.update a h) ≡ s.update (a ++ b) h

module _ (s : Sha1) where
  pub record GitBlobSha1 : Type 0 where
    pub h : s.Hasher
    pub size_written : ℕ
    pub size_header_emitted : Bool
    pub expected_size : ℕ

  unfoldable pub new : ℕ → GitBlobSha1
  new expected_size = record {
    h = s.new;
    size_written = 0;
    size_header_emitted = false;
    expected_size = expected_size;
  }

  -- The two updates with the header.
  unfoldable pub emit_header : ℕ → s.Hasher → s.Hasher
  emit_header expected_size h =
      s.update (0 ∷ []) (s.update (text "blob " ++ decimal expected_size) h)

  unfoldable pub update : List ℕ → GitBlobSha1 → GitBlobSha1
  update bytes g = record g {
    h = s.update bytes (if g.size_header_emitted then g.h else emit_header g.expected_size g.h);
    size_header_emitted = true;
    size_written = add64 g.size_written (length bytes);
  }

  unfoldable pub finalize_hex : GitBlobSha1 → Text
  finalize_hex g =
      s.finalize_hex (if g.size_header_emitted then g.h else emit_header g.expected_size g.h)

  -- The chunks of a blob, one after the other.
  abbrev pub updates : List (List ℕ) → GitBlobSha1 → GitBlobSha1
  updates [] g = g
  updates (chunk ∷ chunks) g = updates chunks (update chunk g)

  abbrev pub bytes_of : List (List ℕ) → List ℕ
  bytes_of [] = []
  bytes_of (chunk ∷ chunks) = chunk ++ bytes_of chunks

  -- What Git hashes: the kind, the size and a zero byte before the content.
  abbrev pub blob_object : ℕ → List ℕ → List ℕ
  blob_object size content = (text "blob " ++ decimal size) ++ (0 ∷ content)

  -- A hasher under way, with the header behind it.
  abbrev under_way : s.Hasher → (written size : ℕ) → GitBlobSha1
  under_way h written size = record {
    h = h;
    size_written = written;
    size_header_emitted = true;
    expected_size = size;
  }

  abbrev pub hash : List ℕ → Text
  hash bytes = s.finalize_hex (s.update bytes s.new)

  streamed :
      Streams s
      → (chunks : List (List ℕ)) (done : List ℕ) (written size : ℕ)
      → finalize_hex (updates chunks (under_way (s.update done s.new) written size))
        ≡ hash (done ++ bytes_of chunks)
  unfolding finalize_hex update
  streamed law [] done written size = ap hash (sym (append-nil done))
  streamed law (chunk ∷ chunks) done written size =
      ap (λ h. finalize_hex (updates chunks (under_way h (add64 written (length chunk)) size)))
        (law done chunk s.new)
      ∙ (streamed law chunks (done ++ chunk) (add64 written (length chunk)) size
          ∙ ap hash (append_assoc done chunk (bytes_of chunks)))

  -- Where the hasher streams, `finalize_hex` after any number of updates with the chunks of a blob is
  -- the hash of the blob object that Git defines, with the expected size, on all bytes at once.
  pub finalize_hex-updates :
      Streams s
      → (size : ℕ) (chunks : List (List ℕ))
      → finalize_hex (updates chunks (new size)) ≡ hash (blob_object size (bytes_of chunks))
  unfolding finalize_hex update new emit_header
  finalize_hex-updates law size [] =
      ap s.finalize_hex (law (text "blob " ++ decimal size) (0 ∷ []) s.new)
  finalize_hex-updates law size (chunk ∷ chunks) =
      let header = text "blob " ++ decimal size in
      let first : s.update chunk (emit_header size s.new)
          ≡ s.update ((header ++ (0 ∷ [])) ++ chunk) s.new =
        ap (s.update chunk) (law header (0 ∷ []) s.new) ∙ law (header ++ (0 ∷ [])) chunk s.new in
      ap (λ h. finalize_hex (updates chunks (under_way h (add64 0 (length chunk)) size))) first
      ∙ (streamed law chunks ((header ++ (0 ∷ [])) ++ chunk) (add64 0 (length chunk)) size
          ∙ ap hash (
              append_assoc (header ++ (0 ∷ [])) chunk (bytes_of chunks)
              ∙ append_assoc header (0 ∷ []) (chunk ++ bytes_of chunks)))
