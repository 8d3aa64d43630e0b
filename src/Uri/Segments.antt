-- ===== src/Uri/Segments.antt =====
-- Splitting a path at its slashes (SplitSegments), and joining it again.
use duckdb_gdrive.Base.{
  ◌≡◌, refl, sym, ap, ◌∙◌, inl, inr, List, [], ◌∷◌, ◌++◌, append_assoc, append-nil, All, ◌==◌,
  Bool-cases, ◌≢◌,
}
use duckdb_gdrive.Base.Text.{Bytes, Lacks, Lacks-append}
use duckdb_gdrive.Uri.{skip_slashes, read_segment, split_segments, join}

-- A name between two slashes.
pub record IsSegment (seg : Bytes) : Type 0 where
  pub nonempty : seg ≢ []
  pub no_slash : Lacks b'/' seg

mutual
  unfolding skip_slashes read_segment

  skip_slashes-IsSegment : (s : Bytes) → All IsSegment (skip_slashes s)
  skip_slashes-IsSegment [] = tt
  skip_slashes-IsSegment (c ∷ s) = elim (Bool-cases (c == b'/')) [
    | inl slash ↦ rw (slash, skip_slashes) (skip_slashes-IsSegment s)
    | inr other ↦
        rw (other, skip_slashes)
          (read_segment-IsSegment s (c ∷ [])
            (record { nonempty = λ e. cc; no_slash = (other, tt) }))
  ]

  read_segment-IsSegment :
      (s start : Bytes) → IsSegment start → All IsSegment (read_segment start s)
  read_segment-IsSegment [] start v = (v, tt)
  read_segment-IsSegment (c ∷ s) start v = elim (Bool-cases (c == b'/')) [
    | inl slash ↦ rw (slash, read_segment) (v, skip_slashes-IsSegment s)
    | inr other ↦
        rw (other, read_segment)
          (read_segment-IsSegment s (start ++ c ∷ []) (record {
            nonempty = longer start;
            no_slash = Lacks-append b'/' start (c ∷ []) v.no_slash (other, tt);
          }))
  ]
    where
      longer : (t : Bytes) → t ++ c ∷ [] ≢ []
      longer [] e = cc
      longer (x ∷ t) e = cc

pub split_segments-IsSegment : (s : Bytes) → All IsSegment (split_segments s)
unfolding split_segments
split_segments-IsSegment s = skip_slashes-IsSegment s

read_segment-last : (start x : Bytes) → Lacks b'/' x → read_segment start x ≡ (start ++ x) ∷ []
unfolding read_segment
read_segment-last start [] h = ap (λ (t : Bytes). t ∷ []) (sym (append-nil start))
read_segment-last start (c ∷ x) h =
    rw (h.0, read_segment)
      (read_segment-last (start ++ c ∷ []) x h.1
        ∙ ap (λ (t : Bytes). t ∷ []) (append_assoc start (c ∷ []) x))

read_segment-slash :
    (start x rest : Bytes)
    → Lacks b'/' x
    → read_segment start (x ++ b'/' ∷ rest) ≡ (start ++ x) ∷ skip_slashes rest
unfolding read_segment
read_segment-slash start [] rest h =
    ap (λ (t : Bytes). t ∷ skip_slashes rest) (sym (append-nil start))
read_segment-slash start (c ∷ x) rest h =
    rw (h.0, read_segment)
      (read_segment-slash (start ++ c ∷ []) x rest h.1
        ∙ ap (λ (t : Bytes). t ∷ skip_slashes rest) (append_assoc start (c ∷ []) x))

skip_slashes-join : (segs : List Bytes) → All IsSegment segs → skip_slashes (join segs) ≡ segs
unfolding skip_slashes join
skip_slashes-join [] h = refl
skip_slashes-join ([] ∷ segs) h = absurd (h.0.nonempty refl)
skip_slashes-join ((c ∷ x) ∷ []) h =
    rw (h.0.no_slash.0, skip_slashes) (read_segment-last (c ∷ []) x h.0.no_slash.1)
skip_slashes-join ((c ∷ x) ∷ seg ∷ segs) h =
    rw (h.0.no_slash.0, skip_slashes)
      (read_segment-slash (c ∷ []) x (join (seg ∷ segs)) h.0.no_slash.1
        ∙ ap (◌∷◌ (c ∷ x)) (skip_slashes-join (seg ∷ segs) h.1))

-- Splitting the joined segments gives them back.
pub split_segments-join :
    (segs : List Bytes) → All IsSegment segs → split_segments (join segs) ≡ segs
unfolding split_segments
split_segments-join segs h = skip_slashes-join segs h
