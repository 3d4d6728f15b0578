-- ===== src/Package/Bounding.antt =====
-- How much unpacking writes, and where: on success and on every failure.
use stanchion.Prelude.{
  ℕ, zero, suc, ◌+◌, ◌≤◌, ◌<◌, ◌≡◌, refl, sym, ap, subst, false, ◌⊎◌, inl, inr, Option, none, some,
  List, [], ◌∷◌, arith, ltb, length, In, here, there, Outcome, ok, err, ◌>>◌, Text, u64_max,
  Bool-cases, Option-cases, Outcome-cases,
}
use stanchion.Package.{
  Bytes, Limits, Entry, PackageError, io, too_large, unsafe_path, unsafe_entry, EntryKind,
  directory, regular, other, Unpacking, safe_relative, saturating_add, take, copied, copy_fault,
  check_file, admit_directory, WriteFault, blocked, cut_short, unflushed, fill_file, write_file,
  unpack_file, unpack_entry, unpack_each, unpack,
}
use stanchion.Package.Confining.{IsConfined, safe_relative-IsConfined}

-- The bytes of all the files.
abbrev pub volume : List (Text × Bytes) → ℕ
volume [] = 0
volume ((path, bytes) ∷ files) = length bytes + volume files

length-take : (n : ℕ) (bytes : Bytes) → length (take n bytes) ≤ n
unfolding take
length-take zero bytes = omega arith
length-take (suc n) [] = omega arith
length-take (suc n) (b ∷ bytes) = omega (arith, length-take n bytes)

length-take_le : (n : ℕ) (bytes : Bytes) → length (take n bytes) ≤ length bytes
unfolding take
length-take_le zero bytes = omega arith
length-take_le (suc n) [] = omega arith
length-take_le (suc n) (b ∷ bytes) = omega (arith, length-take_le n bytes)

module _ (limits : Limits) where
  -- What is written is confined, no more than the limits let in, and at most one file past them.
  pub record IsBounded (files : List (Text × Bytes)) : Type 0 where
    pub confined : (path : Text) (bytes : Bytes) → In (path, bytes) files → IsConfined path
    pub few : length files ≤ limits.entries
    pub small : volume files ≤ limits.total_bytes + suc limits.file_bytes

  -- The state between two entries.
  record IsSound (s : Unpacking) : Type 0 where
    bounded : IsBounded s.files
    counted : length s.files ≡ length s.seen
    summed : volume s.files ≡ s.total
    within : s.total ≤ limits.total_bytes

  -- What an entry leads to.
  record Goes (answer : Outcome PackageError (Unit {0}) × Unpacking) : Type 0 where
    safe : IsBounded answer.1.files
    sound : answer.0 ≡ ok tt → IsSound answer.1

  stop : (e : PackageError) (s : Unpacking) → IsBounded s.files → Goes (err e, s)
  stop e s b = record { safe = b; sound = λ h. cc }

  check_file-none :
      (entry : Entry) (relative : Text) (s : Unpacking)
      → check_file limits entry relative s ≡ none
      → suc (length s.seen) ≤ limits.entries
  unfolding check_file
  check_file-none entry relative s h = ground arith

  module _ (disk : List (Text × Bytes) → Text → Option WriteFault)
      (roomy : limits.total_bytes < u64_max) where
    totals :
        (total size : ℕ)
        → ltb limits.total_bytes (saturating_add total size) ≡ false
        → (saturating_add total size ≡ total + size)
          × (saturating_add total size ≤ limits.total_bytes)
    totals total size h = (ground arith, ground arith)

    added :
        (relative : Text) (bytes : Bytes) (s : Unpacking)
        → length bytes ≤ saturating_add limits.file_bytes 1
        → IsConfined relative
        → suc (length s.seen) ≤ limits.entries
        → IsSound s
        → IsBounded ((relative, bytes) ∷ s.files)
    added relative bytes s most c room i = record {
      confined = λ path b j. elim j [
        | here q ↦ subst IsConfined (sym (ap (λ (x : Text × Bytes). x.0) q)) c
        | there k ↦ i.bounded.confined path b k
      ];
      few = omega (arith, i.counted);
      small = omega (arith, most, one_more limits.file_bytes, i.summed, i.within);
    }
      where
        one_more : (n : ℕ) → saturating_add n 1 ≤ suc n
        one_more n = ground arith

    fill_file-Goes :
        (entry : Entry) (relative : Text) (s : Unpacking)
        → IsConfined relative
        → suc (length s.seen) ≤ limits.entries
        → IsSound s
        → Goes (fill_file limits entry relative (record s { seen = relative ∷ s.seen }))
    unfolding fill_file
    fill_file-Goes entry relative s c room i =
        let bytes = copied limits entry in
        let most = length-take (saturating_add limits.file_bytes 1) entry.contents in
        let more = added relative bytes s most c room i in
        let size = length bytes in
        elim (Option-cases (copy_fault limits entry)) [
          | inr (e, g) ↦ rw (g, fill_file) (stop (io e) _ more)
          | inl g ↦ elim (Bool-cases (ltb limits.file_bytes size)) [
            | inl k ↦ rw (g, k, fill_file) (stop too_large _ more)
            | inr k ↦ elim (Bool-cases (ltb limits.total_bytes (saturating_add s.total size))) [
              | inl l ↦ rw (g, k, l, fill_file) (stop too_large _ more)
              | inr l ↦
                  rw (g, k, l, fill_file)
                    (record {
                      safe = more;
                      sound = λ h. record {
                        bounded = more;
                        counted = omega (arith, i.counted);
                        summed = omega (arith, i.summed, (totals s.total size l).0);
                        within = (totals s.total size l).1;
                      };
                    })
            ]
          ]
        ]

    not_flushed :
        (o : Outcome PackageError (Unit {0})) (e : PackageError) (s : Unpacking)
        → IsBounded s.files
        → Goes (o >> err e, s)
    not_flushed (ok u) e s b = stop e s b
    not_flushed (err x) e s b = stop x s b

    write_file-Goes :
        (entry : Entry) (relative : Text) (s : Unpacking)
        → IsConfined relative
        → suc (length s.seen) ≤ limits.entries
        → IsSound s
        → Goes (write_file disk limits entry relative (record s { seen = relative ∷ s.seen }))
    unfolding write_file
    write_file-Goes entry relative s c room i =
        let filled = fill_file-Goes entry relative s c room i in
        elim (faults (disk s.files relative)) [
          | inl f ↦ rw (f, write_file) filled
          | inr (inl (e, f)) ↦ rw (f, write_file) (stop (io e) _ i.bounded)
          | inr (inr (inl (n, e, f))) ↦
              let most = length-take (saturating_add limits.file_bytes 1) entry.contents in
              let fewer = length-take_le n (copied limits entry) in
              rw (f, write_file)
                (stop (io e) _ (
                  added relative (take n (copied limits entry)) s (omega (arith, most, fewer)) c
                    room i))
          | inr (inr (inr (e, f))) ↦ rw (f, write_file) (not_flushed _ (io e) _ filled.safe)
        ]
      where
        faults :
            (o : Option WriteFault)
            → (o ≡ none)
              ⊎ (((e : Text) × (o ≡ some (blocked e)))
                  ⊎ (((n : ℕ) × (e : Text) × (o ≡ some (cut_short n e)))
                      ⊎ ((e : Text) × (o ≡ some (unflushed e)))))
        faults none = inl refl
        faults (some (blocked e)) = inr (inl (e, refl))
        faults (some (cut_short n e)) = inr (inr (inl (n, e, refl)))
        faults (some (unflushed e)) = inr (inr (inr (e, refl)))

    unpack_file-Goes :
        (entry : Entry) (raw : Text) (s : Unpacking)
        → IsSound s
        → Goes (unpack_file disk limits entry raw s)
    unfolding unpack_file
    unpack_file-Goes entry raw s i = elim (Option-cases (safe_relative raw)) [
      | inl e ↦ rw (e, unpack_file) (stop (unsafe_path raw) s i.bounded)
      | inr (relative, e) ↦ elim (Option-cases (check_file limits entry relative s)) [
        | inr (x, f) ↦ rw (e, f, unpack_file) (stop x s i.bounded)
        | inl f ↦
            rw (e, f, unpack_file)
              (write_file-Goes entry relative s (safe_relative-IsConfined raw e)
                (check_file-none entry relative s f) i)
      ]
    ]

    admit_directory-Goes :
        (raw : Text) (s : Unpacking) → IsSound s → Goes (admit_directory limits raw s)
    unfolding admit_directory
    admit_directory-Goes raw s i = elim (Option-cases (safe_relative raw)) [
      | inl e ↦ rw (e, admit_directory) (stop (unsafe_path raw) s i.bounded)
      | inr (relative, e) ↦
          elim (Bool-cases
            (ltb limits.entries (saturating_add (saturating_add s.dirs 1) (length s.seen)))) [
              | inl f ↦ rw (e, f, admit_directory) (stop too_large _ i.bounded)
              | inr f ↦
                  rw (e, f, admit_directory)
                    (record {
                      safe = i.bounded;
                      sound = λ h. record {
                        bounded = i.bounded;
                        counted = i.counted;
                        summed = i.summed;
                        within = i.within;
                      };
                    })
            ]
    ]

    unpack_entry-Goes :
        (entry : Entry) (s : Unpacking) → IsSound s → Goes (unpack_entry disk limits entry s)
    unfolding unpack_entry
    unpack_entry-Goes entry s i = elim (Outcome-cases entry.path) [
      | inr (e, f) ↦ simp (f, unpack_entry) (stop (io e) s i.bounded)
      | inl (raw, f) ↦ elim (kinds entry.kind) [
        | inl k ↦ simp (f, k, unpack_entry) (admit_directory-Goes raw s i)
        | inr (inl k) ↦ simp (f, k, unpack_entry) (unpack_file-Goes entry raw s i)
        | inr (inr (kind, k)) ↦ simp (f, k, unpack_entry) (stop (unsafe_entry raw kind) s i.bounded)
      ]
    ]
      where
        kinds :
            (k : EntryKind) → (k ≡ directory) ⊎ ((k ≡ regular) ⊎ ((kind : Text) × (k ≡ other kind)))
        kinds directory = inl refl
        kinds regular = inr (inl refl)
        kinds (other kind) = inr (inr (kind, refl))

    unpack_each-IsBounded :
        (entries : List (Outcome Text Entry)) (s : Unpacking)
        → IsSound s
        → IsBounded (unpack_each disk limits entries s).1.files
    unfolding unpack_each
    unpack_each-IsBounded [] s i = i.bounded
    unpack_each-IsBounded (err e ∷ entries) s i = i.bounded
    unpack_each-IsBounded (ok entry ∷ entries) s i =
        let g = unpack_entry-Goes entry s i in
        elim (Outcome-cases (unpack_entry disk limits entry s).0) [
          | inr (e, f) ↦ rw (f, unpack_each) g.safe
          | inl (u, f) ↦ rw (f, unpack_each) (unpack_each-IsBounded entries _ (g.sound f))
        ]

    unpack_each-IsSound :
        (entries : List (Outcome Text Entry)) (s : Unpacking)
        → IsSound s
        → (unpack_each disk limits entries s).0 ≡ ok tt
        → IsSound (unpack_each disk limits entries s).1
    unfolding unpack_each
    unpack_each-IsSound [] s i h = i
    unpack_each-IsSound (err e ∷ entries) s i h = absurd (ground arith)
    unpack_each-IsSound (ok entry ∷ entries) s i h =
        elim (Outcome-cases (unpack_entry disk limits entry s).0) [
          | inr (e, f) ↦ absurd (ground arith)
          | inl (u, f) ↦
              rw (f, unpack_each)
                (unpack_each-IsSound entries _ ((unpack_entry-Goes entry s i).sound f)
                  (rw (f, unpack_each) at h))
        ]

    nothing : IsBounded []
    nothing = record {
      confined = λ path bytes j. elim j [ ];
      few = omega arith;
      small = omega arith;
    }

    begin : IsSound (record { seen = []; total = 0; dirs = 0; files = [] })
    begin = record { bounded = nothing; counted = refl; summed = refl; within = omega arith }

    -- Whatever an archive holds, and whether unpacking it succeeds or fails, every file that it
    -- leaves on the disk has a path of plain names below the destination, there are no more files
    -- than the limit on entries, and together they exceed the limit on all bytes by at most the
    -- limit on one file and a byte; where it succeeds they do not exceed it. The limit on all bytes
    -- is below the largest 64-bit number.
    pub unpack-IsBounded :
        (archive : Outcome Text (List (Outcome Text Entry)))
        → IsBounded (unpack disk limits archive).1
          × ((unpack disk limits archive).0 ≡ ok tt
              → volume (unpack disk limits archive).1 ≤ limits.total_bytes)
    unfolding unpack
    unpack-IsBounded (err e) = (nothing, λ h. omega arith)
    unpack-IsBounded (ok entries) = (
      unpack_each-IsBounded entries _ begin,
      λ h. let i = unpack_each-IsSound entries _ begin h in omega (arith, i.summed, i.within),
    )
