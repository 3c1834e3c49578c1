-- ===== src/Archiver/Storing/Kept.antt =====
-- What the archiving of a file keeps.
use barman.Prelude.{
  ◌≡◌, refl, ap, sym, ◌∙◌, ◌⊎◌, inl, inr, Bool, true, false, Option, none, some, [], ◌∷◌, ◌++◌,
  if◌then◌else◌, arith, length, length-append, Bool-cases,
}
use barman.Text.{Text, text, text_eq}
use barman.Text.Order.{text_eq_iff, text_eq_refl}
use barman.Result.{Result, ok, err, Error}
use barman.Catalog.Removal.{WalFileInfo}
use barman.Archiver.Storing.{
  Compressors, Store, Faults, Step, Called, set_file, plain, compare_files, attempt, add_row,
  from_tmp, store_compressed, store_plain, store_file, tmp_of, on_source, archive_wal,
}

-- What a compressor compresses it gives back.
abbrev pub IsLossless : Compressors → Type 0
IsLossless tools =
    (name contents : Text) → tools.decompress name (tools.compress name contents) ≡ ok contents

-- The place holds a file which, read with that compression, has the contents that the source has.
abbrev pub Holds : Compressors → Option Text → Option Text → Text → Text → Store → Type 0
Holds tools compression source_compression contents dst after =
    (new : Text) × (after.files dst ≡ some new)
    × (plain tools compression new ≡ plain tools source_compression contents)

-- Only the three paths may have changed.
abbrev pub IsElsewhere : Text → Text → Store → Store → Type 0
IsElsewhere src dst s after =
    (path : Text)
    → text_eq src path ≡ false
    → text_eq dst path ≡ false
    → text_eq (tmp_of dst) path ≡ false
    → after.files path ≡ s.files path

-- The source is still there and has no new row; or the archive has its contents, with or without a
-- row, which tells the compression of the file.
abbrev pub IsSafe : Compressors → Text → Text → WalFileInfo → Text → Store → Store → Type 0
IsSafe tools src dst w contents s after =
    IsElsewhere src dst s after
    × (((after.files src ≡ some contents) × (after.xlogdb ≡ s.xlogdb))
        ⊎ ((row : WalFileInfo) × (Holds tools row.compression w.compression contents dst after
              × ((after.xlogdb ≡ s.xlogdb) ⊎ (after.xlogdb ≡ s.xlogdb ++ row ∷ [])))))

-- What has become of a file that is archived
abbrev pub IsStored :
    Compressors → Text → Text → WalFileInfo → Text → Store → WalFileInfo → Store → Type 0
IsStored tools src dst w contents s row after =
    IsElsewhere src dst s after
    × (after.xlogdb ≡ s.xlogdb ++ row ∷ [])
    × (after.files src ≡ none)
    × Holds tools row.compression w.compression contents dst after

after_attempt :
    (P : Called → Type 0) (fault : Option Error) (left : Store) (rest : Called)
    → ((e : Error) → P (err e, left))
    → P rest
    → P (attempt fault left rest)
after_attempt P (some e) left rest failed done = failed e
after_attempt P none left rest failed done = done

not_tmp : (dst : Text) → text_eq (tmp_of dst) dst ≡ false
not_tmp dst = elim (Bool-cases (text_eq (tmp_of dst) dst)) [
  | inr e ↦ e
  | inl e ↦
      let same : dst ++ text ".tmp" ≡ dst = (text_eq_iff (tmp_of dst) dst).0 e in
      let longer : length (dst ++ text ".tmp") ≡ length dst = ap length same in
      let wrong : ⊥ = omega (arith, longer, length-append dst (text ".tmp")) in absurd wrong
]

apart_sym : (a b : Text) → text_eq a b ≡ false → text_eq b a ≡ false
apart_sym a b h = elim (Bool-cases (text_eq b a)) [
  | inr e ↦ e
  | inl e ↦
      let same : text_eq a b ≡ true = (text_eq_iff a b).1 (sym ((text_eq_iff b a).0 e)) in
      cc (h, same)
]

module _ (tools : Compressors) (faults : Faults) (src dst : Text) (w : WalFileInfo) (s : Store)
    (contents : Text) (apart : text_eq dst src ≡ false)
    (tmp_apart : text_eq (tmp_of dst) src ≡ false) where
  abbrev pub tmp : Text
  tmp = tmp_of dst

  -- Whatever the result is, the store is safe.
  abbrev pub Safe : Called → Type 0
  Safe r = IsSafe tools src dst w contents s r.1

  -- The place holds the contents of the source as a row with that compression tells.
  abbrev pub Reads : Option Text → Text → Type 0
  Reads compression new = plain tools compression new ≡ plain tools w.compression contents

  tmp-IsElsewhere : (part : Option Text) → IsElsewhere src dst s (set_file tmp part s)
  unfolding set_file
  tmp-IsElsewhere part path not_src not_dst not_tmp = rw not_tmp refl

  with_source :
      (r : Called)
      → IsElsewhere src dst s r.1
      → r.1.files src ≡ some contents
      → r.1.xlogdb ≡ s.xlogdb
      → Safe r
  with_source r away here same = (away, inl (here, same))

  -- A temporary file changes nothing.
  tmp-Safe :
      (part : Option Text) (r : Result WalFileInfo)
      → s.files src ≡ some contents
      → Safe (r, set_file tmp part s)
  unfolding set_file
  tmp-Safe part r here =
      with_source (r, set_file tmp part s) (tmp-IsElsewhere part) (rw (tmp_apart, here) refl) refl

  add_row-Safe :
      (row : WalFileInfo) (stored : Store)
      → IsElsewhere src dst s stored
      → stored.xlogdb ≡ s.xlogdb
      → Holds tools row.compression w.compression contents dst stored
      → Safe (add_row faults row stored)
  unfolding add_row
  add_row-Safe row stored away same holds =
      let written : Store = record stored { xlogdb = stored.xlogdb ++ row ∷ [] } in
      let before : (e : Error) → Safe (err e, stored) = λ e. (away, inr (row, (holds, inl same))) in
      let done : (r : Result WalFileInfo) → Safe (r, written) =
        λ r. (away, inr (row, (holds, inr (rw same refl)))) in
      after_attempt Safe (faults.fault Step.sync_files) stored _ before (
        after_attempt Safe (faults.fault Step.write_row) stored _ before (
          after_attempt Safe (faults.fault Step.flush_row) written (ok row, written)
            (λ e. done (err e)) (done (ok row))))

  -- The store once the place has a file, and the same without the source
  abbrev pub placed : Store → Text → Store
  placed begun new = set_file tmp none (set_file dst (some new) begun)

  placed-IsElsewhere :
      (begun : Store) (new : Text)
      → IsElsewhere src dst s begun
      → IsElsewhere src dst s (placed begun new)
  unfolding set_file
  placed-IsElsewhere begun new away path not_src not_dst not_tmp =
      rw (not_tmp, not_dst) (away path not_src not_dst not_tmp)

  removed-IsElsewhere :
      (begun : Store)
      → IsElsewhere src dst s begun
      → IsElsewhere src dst s (set_file src none begun)
  unfolding set_file
  removed-IsElsewhere begun away path not_src not_dst not_tmp =
      rw not_src (away path not_src not_dst not_tmp)

  placed-src :
      (begun : Store) (new : Text)
      → begun.files src ≡ some contents
      → (placed begun new).files src ≡ some contents
  unfolding set_file
  placed-src begun new here = rw (tmp_apart, apart) here

  placed-dst :
      (begun : Store) (new : Text) → (set_file src none (placed begun new)).files dst ≡ some new
  unfolding set_file
  placed-dst begun new = rw (apart_sym dst src apart, not_tmp dst, text_eq_refl dst) refl

  pub src_removed : (begun : Store) → (set_file src none begun).files src ≡ none
  unfolding set_file
  src_removed begun = rw (text_eq_refl src) refl

  xlogdb_placed :
      (begun : Store) (new : Text) → (set_file src none (placed begun new)).xlogdb ≡ begun.xlogdb
  unfolding set_file
  xlogdb_placed begun new = refl

  -- What the steps on the archived file find
  module _ (row : WalFileInfo) (new : Text) (reads : Reads row.compression new)
      (here : s.files src ≡ some contents) where
    abbrev pub begun : Store
    begun = set_file tmp (some new) s

    abbrev pub stored : Store
    stored = set_file src none (placed begun new)

    src_begun : begun.files src ≡ some contents
    unfolding set_file
    src_begun = rw (tmp_apart, here) refl

    xlogdb_begun : begun.xlogdb ≡ s.xlogdb
    unfolding set_file
    xlogdb_begun = refl

    pub stored-IsElsewhere : IsElsewhere src dst s stored
    stored-IsElsewhere =
        removed-IsElsewhere (placed begun new)
          (placed-IsElsewhere begun new (tmp-IsElsewhere (some new)))

    pub stored-Holds : Holds tools row.compression w.compression contents dst stored
    stored-Holds = (new, placed-dst begun new, reads)

    pub stored_xlogdb : stored.xlogdb ≡ s.xlogdb
    stored_xlogdb = xlogdb_placed begun new ∙ xlogdb_begun

    from_tmp-Safe :
        (rest : Store → Called)
        → Safe (rest stored)
        → Safe (from_tmp faults src dst tmp new begun rest)
    unfolding from_tmp
    from_tmp-Safe rest done =
        after_attempt Safe (faults.fault Step.rename_tmp) begun _
          (λ e. tmp-Safe (some new) (err e) here)
          (after_attempt Safe (faults.fault Step.unlink_source) (placed begun new) _
            (λ e.
              with_source (err e, placed begun new)
                (placed-IsElsewhere begun new (tmp-IsElsewhere (some new)))
                (placed-src begun new src_begun) (unfold set_file in refl))
            done)

    stored_row-Safe : Safe (add_row faults row stored)
    stored_row-Safe = add_row-Safe row stored stored-IsElsewhere stored_xlogdb stored-Holds

    unrowed-Safe : (r : Result WalFileInfo) → Safe (r, stored)
    unrowed-Safe r = (stored-IsElsewhere, inr (row, (stored-Holds, inl stored_xlogdb)))

  same-Safe : (r : Result WalFileInfo) → s.files src ≡ some contents → Safe (r, s)
  same-Safe r here = with_source (r, s) (λ path a b c. refl) here refl

  abbrev pub compressed_row : Text → WalFileInfo
  compressed_row name = record w {
    size = length (tools.compress name contents);
    compression = some name;
  }

  compressed-Safe :
      (name : Text)
      → s.files src ≡ some contents
      → Reads (some name) (tools.compress name contents)
      → Safe (store_compressed faults src dst tmp name (tools.compress name contents) w s)
  unfolding store_compressed
  compressed-Safe name here reads =
      let new : Text = tools.compress name contents in
      let row : WalFileInfo = compressed_row name in
      let left : (e : Error) → Safe (err e, set_file tmp (some new) s) =
        λ e. tmp-Safe (some new) (err e) here in
      after_attempt Safe (faults.fault Step.compress_file) (set_file tmp faults.part s) _
        (λ e. tmp-Safe faults.part (err e) here)
        (after_attempt Safe (faults.fault Step.lock_xlogdb) (set_file tmp (some new) s) _ left (
          after_attempt Safe (faults.fault Step.copy_stat) (set_file tmp (some new) s) _ left (
            from_tmp-Safe row new reads here _ (
              after_attempt Safe (faults.fault Step.stat_archived) (stored row new reads here) _
                (λ e. unrowed-Safe row new reads here (err e))
                (stored_row-Safe row new reads here)))))

  -- The store after a renaming from one directory to the other
  abbrev pub moved : Store
  moved = set_file src none (set_file dst (some contents) s)

  pub moved-IsElsewhere : IsElsewhere src dst s moved
  unfolding set_file
  moved-IsElsewhere path not_src not_dst not_tmp = rw (not_src, not_dst) refl

  moved_dst : moved.files dst ≡ some contents
  unfolding set_file
  moved_dst = rw (apart_sym dst src apart, text_eq_refl dst) refl

  pub moved-Holds : Holds tools w.compression w.compression contents dst moved
  moved-Holds = (contents, moved_dst, refl)

  either-Safe : (b : Bool) (x y : Called) → Safe x → Safe y → Safe (if b then x else y)
  either-Safe true x y hx hy = hx
  either-Safe false x y hx hy = hy

  plain-Safe : s.files src ≡ some contents → Safe (store_plain faults src dst tmp contents w s)
  unfolding store_plain
  plain-Safe here =
      after_attempt Safe (faults.fault Step.lock_xlogdb) s _ (λ e. same-Safe (err e) here)
        (either-Safe faults.renames _ _
          (add_row-Safe w moved moved-IsElsewhere (unfold set_file in refl) moved-Holds)
          (after_attempt Safe (faults.fault Step.copy_source) (set_file tmp faults.part s) _
            (λ e. tmp-Safe faults.part (err e) here)
            (from_tmp-Safe w contents refl here _ (stored_row-Safe w contents refl here))))

  stored-Safe :
      (compressor compression : Option Text)
      → IsLossless tools
      → w.compression ≡ compression
      → s.files src ≡ some contents
      → Safe (store_file tools faults compressor compression src dst tmp contents w s)
  stored-Safe none compression lossless e here = plain-Safe here
  stored-Safe (some name) none lossless e here =
      compressed-Safe name here (rw e (lossless name contents))
  stored-Safe (some name) (some c) lossless e here = plain-Safe here

  source-Safe :
      (compressor existing : Option Text)
      → IsLossless tools
      → s.files src ≡ some contents
      → Safe (on_source tools faults compressor src dst w (some contents) existing s)
  source-Safe compressor (some old) lossless here =
      same-Safe (compare_files tools faults.same_stat w.compression old contents) here
  source-Safe compressor none lossless here =
      after_attempt Safe (faults.fault Step.make_directory) s _ (λ e. same-Safe (err e) here)
        (stored-Safe compressor w.compression lossless refl here)

-- Whatever step fails, and also if the hooks ask to stop or the place is taken: with a compressor
-- that gives back what it compresses, a file that is to be archived is not lost. Either it is still
-- there, with no new row in the xlogdb; or its place holds a file which, read as the new row says,
-- has the uncompressed contents of the source, and the xlogdb has got that row, or not yet. No other
-- file has changed but for the one with `.tmp`.
pub archive_wal-IsSafe :
    (tools : Compressors) (faults : Faults) (pre : Result (Unit {0})) (compressor : Option Text)
    (src dst : Text) (w : WalFileInfo) (s : Store) (contents : Text)
    → IsLossless tools
    → text_eq dst src ≡ false
    → text_eq (tmp_of dst) src ≡ false
    → s.files src ≡ some contents
    → IsSafe tools src dst w contents s (archive_wal tools faults pre compressor src dst w s).1
unfolding archive_wal
archive_wal-IsSafe tools faults (err e) compressor src dst w s contents lossless apart tmp_apart
      here =
    same-Safe tools faults src dst w s contents apart tmp_apart (err e) here
archive_wal-IsSafe tools faults (ok tt) compressor src dst w s contents lossless apart tmp_apart
      here =
    rw here (
      source-Safe tools faults src dst w s contents apart tmp_apart compressor (s.files dst)
        lossless here)
