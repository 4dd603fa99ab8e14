-- ===== src/Files/Content.antt =====
-- What `ReadContentFromSource` returns.
use duck_hunt.Prelude.{
  ℕ, zero, suc, ◌-◌, ◌≤◌, ◌<◌, ◌≡◌, refl, sym, ap, ◌∙◌, ltb, Bool-cases, inl, inr, true, false,
  Option, none, some, List, [], ◌∷◌, ◌++◌, Text, length, take, drop, is_empty, arith, append-nil,
  append_assoc, take-append-drop, length-append, length-take, if◌then◌else◌, ltb-false→le, codes,
  length-drop, ◌&&◌,
}
use duck_hunt.Parser.{Outcome, ok, io_exception, exception, ◌>>=◌}
use duck_hunt.LineReader.{FileHandle, read, read_size, other_sizes}
use duck_hunt.LineReader.Next.{read_size_pos, pos_of, take_nil}
use duck_hunt.Files.{
  OpenFile, FileSystem, max_file_size_bytes, validate_path, size_error, zeros, filled, chunk_size,
  read_chunks, chunks_or_fault, read_opened, read_content,
}

abbrev handle_of : Text → List ℕ → FileHandle
handle_of rest sizes = record { rest = rest; sizes = sizes }

abbrev too_large : Text → Text → Option (Outcome Text)
too_large source content =
    some (exception (size_error source (codes "read so far") (length content)))

read_chunks_end :
    (f : ℕ) (source : Text) (sizes : List ℕ) (content : Text)
    → read_chunks (suc f) source (handle_of [] sizes) content ≡ some (ok content)
unfolding read_chunks
read_chunks_end f source sizes content = (rw (take_nil (read_size sizes chunk_size)))

read_chunks_more :
    (f : ℕ) (source : Text) (c m : ℕ) (s : Text) (sizes : List ℕ) (content : Text)
    → read_size sizes chunk_size ≡ suc m
    → read_chunks (suc f) source (handle_of (c ∷ s) sizes) content ≡ (
        if ltb max_file_size_bytes (length (content ++ c ∷ take m s))
        then too_large source (content ++ c ∷ take m s)
        else read_chunks f source
            (handle_of (drop m s) (other_sizes sizes))
            (content ++ c ∷ take m s))
unfolding read_chunks
read_chunks_more f source c m s sizes content e = (rw e)

rejoined :
    (content : Text) (c m : ℕ) (s : Text) → (content ++ c ∷ take m s) ++ drop m s ≡ content ++ c ∷ s
rejoined content c m s =
    append_assoc content (c ∷ take m s) (drop m s)
    ∙ ap (λ t. content ++ c ∷ t) (take-append-drop m s)

le→ltb-false : (a b : ℕ) → b ≤ a → ltb a b ≡ false
le→ltb-false a b h = ground arith

length-rejoined :
    (content : Text) (c m : ℕ) (s : Text)
    → length (content ++ c ∷ take m s) ≤ length (content ++ c ∷ s)
length-rejoined content c m s =
    omega (
      arith,
      ap length (rejoined content c m s),
      length-append (content ++ c ∷ take m s) (drop m s),
    )

read_chunks-ok :
    (f : ℕ) (source rest : Text) (sizes : List ℕ) (content : Text)
    → length rest < f
    → length (content ++ rest) ≤ max_file_size_bytes
    → read_chunks f source (handle_of rest sizes) content ≡ some (ok (content ++ rest))
read_chunks-ok zero source rest sizes content h k = absurd (omega (arith, h))
read_chunks-ok (suc f) source [] sizes content h k =
    read_chunks_end f source sizes content ∙ ap (λ t. some (ok t)) (sym (append-nil content))
read_chunks-ok (suc f) source (c ∷ s) sizes content h k =
    let (m, e) =
      pos_of (read_size sizes chunk_size) (read_size_pos sizes chunk_size (omega arith)) in
    let small =
      le→ltb-false max_file_size_bytes (length (content ++ c ∷ take m s))
        (omega (arith, k, length-rejoined content c m s)) in
    let more =
      read_chunks-ok f source (drop m s) (other_sizes sizes) (content ++ c ∷ take m s)
        (omega (arith, h, length-drop m s)) (rw (rejoined content c m s) k) in
    read_chunks_more f source c m s sizes content e
    ∙ (rw small (more ∙ (rw (rejoined content c m s) refl)))

read_content_opened :
    (fs : FileSystem) (source : Text) (f : OpenFile)
    → validate_path source ≡ true
    → fs.open_file source ≡ ok f
    → read_content fs source ≡ read_opened source f
unfolding read_content
read_content_opened fs source f v o = (rw (v, o))

abbrev chunks_of : Text → OpenFile → Option (Outcome Text)
chunks_of source f = read_chunks (suc (length f.handle.rest)) source f.handle []

read_opened_chunked :
    (source : Text) (f : OpenFile)
    → (f.can_get_size && ltb 0 f.file_size) ≡ false
    → read_opened source f ≡ chunks_or_fault source f.handle (chunks_of source f)
unfolding read_opened
read_opened_chunked source f z = elim (Bool-cases f.can_get_size) [
  | inl e ↦ rw (e, rw e at z) refl
  | inr e ↦ rw e refl
]

-- The content of a file whose size cannot be asked for, or is said to be zero, is the file's,
-- however the file system cuts it into reads, where it fits the limit.
pub read_content-chunked :
    (fs : FileSystem) (source : Text) (f : OpenFile)
    → validate_path source ≡ true
    → fs.open_file source ≡ ok f
    → (f.can_get_size && ltb 0 f.file_size) ≡ false
    → length f.handle.rest ≤ max_file_size_bytes
    → read_content fs source ≡ ok f.handle.rest
read_content-chunked fs source f v o z k =
    read_content_opened fs source f v o
    ∙ read_opened_chunked source f z
    ∙ ap (chunks_or_fault source f.handle) (
        read_chunks-ok (suc (length f.handle.rest)) source f.handle.rest f.handle.sizes []
          (omega arith) k)

abbrev content_of : Outcome Text → Text
content_of (ok t) = t
content_of (io_exception e) = []
content_of (exception e) = []

abbrev chunks_content : Option (Outcome Text) → Text
chunks_content none = []
chunks_content (some o) = content_of o

abbrev Fits : Text → Type 0
Fits t = length t ≤ max_file_size_bytes

read_chunks-Fits :
    (f : ℕ) (source : Text) (h : FileHandle) (content : Text)
    → Fits content
    → Fits (chunks_content (read_chunks f source h content))
unfolding read_chunks
read_chunks-Fits zero source h content k = omega arith
read_chunks-Fits (suc f) source h content k = elim (Bool-cases (is_empty (read h chunk_size).0)) [
  | inl e ↦ rw e k
  | inr e ↦
      elim (Bool-cases (ltb max_file_size_bytes (length (content ++ (read h chunk_size).0)))) [
        | inl l ↦ rw (e, l) (omega arith)
        | inr l ↦
            rw (e, l)
              (read_chunks-Fits f source (read h chunk_size).1 (content ++ (read h chunk_size).0)
                (ltb-false→le _ _ l))
      ]
]

length-zeros : (n : ℕ) → length (zeros n) ≡ n
length-zeros zero = refl
length-zeros (suc n) = omega (arith, length-zeros n)

read_size_le : (sizes : List ℕ) (space : ℕ) → read_size sizes space ≤ space
read_size_le [] space = omega arith
read_size_le (n ∷ ns) space = omega arith

length-filled : (n : ℕ) (h : FileHandle) → length (filled n (read h n).0) ≤ n
length-filled n h = omega (
  arith,
  length-append (read h n).0 (zeros (n - length (read h n).0)),
  length-zeros (n - length (read h n).0),
  length-take (read_size h.sizes n) h.rest,
  read_size_le h.sizes n,
)

content_of-chunks_or_fault :
    (source : Text) (h : FileHandle) (o : Option (Outcome Text))
    → content_of (chunks_or_fault source h o) ≡ chunks_content o
content_of-chunks_or_fault source h none = refl
content_of-chunks_or_fault source h (some o) = refl

chunks_or_fault-Fits :
    (source : Text) (f : OpenFile)
    → Fits (content_of (chunks_or_fault source f.handle (chunks_of source f)))
chunks_or_fault-Fits source f =
    rw (content_of-chunks_or_fault source f.handle (chunks_of source f))
      (read_chunks-Fits (suc (length f.handle.rest)) source f.handle [] (omega arith))

read_opened-Fits : (source : Text) (f : OpenFile) → Fits (content_of (read_opened source f))
unfolding read_opened
read_opened-Fits source f = elim (Bool-cases f.can_get_size) [
  | inr e ↦ rw e (chunks_or_fault-Fits source f)
  | inl e ↦ elim (Bool-cases (ltb 0 f.file_size)) [
    | inr z ↦ rw (e, z) (chunks_or_fault-Fits source f)
    | inl z ↦ elim (Bool-cases (ltb max_file_size_bytes f.file_size)) [
      | inl l ↦ rw (e, z, l) (omega arith)
      | inr l ↦
          rw (e, z, l)
            (omega (
              arith,
              length-filled f.file_size f.handle,
              ltb-false→le max_file_size_bytes f.file_size l,
            ))
    ]
  ]
]

bound-Fits :
    (source : Text) (o : Outcome OpenFile) → Fits (content_of (o >>= λ f. read_opened source f))
bound-Fits source (ok f) = read_opened-Fits source f
bound-Fits source (io_exception e) = omega arith
bound-Fits source (exception e) = omega arith

read_content-Fits : (fs : FileSystem) (source : Text) → Fits (content_of (read_content fs source))
unfolding read_content
read_content-Fits fs source = elim (Bool-cases (validate_path source)) [
  | inl v ↦ rw v (bound-Fits source (fs.open_file source))
  | inr v ↦ rw v (omega arith)
]

-- No content that is returned exceeds the limit.
pub length-read_content :
    (fs : FileSystem) (source content : Text)
    → read_content fs source ≡ ok content
    → length content ≤ max_file_size_bytes
length-read_content fs source content h =
    omega (arith, read_content-Fits fs source, ap (λ o. length (content_of o)) h)
