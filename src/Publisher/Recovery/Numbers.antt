-- ===== src/Publisher/Recovery/Numbers.antt =====
-- All the entries of a recovery in redis_publisher.rs.
use tycho_simulation_server.Base.{
  past_map_err, ℕ, suc, ◌+◌, List, [], ◌∷◌, ◌++◌, Text, length, map, ok, map_err, Always,
  Always-bind, Always-ok, ◌≡◌, refl, ap, subst, arith,
}
use tycho_simulation_server.Contract.External.{Tycho}
use tycho_simulation_server.Contract.Payload.{recovery_starts, catches_up, commits, UpdateMessage}
use tycho_simulation_server.Contract.Boundary.{StreamEntry}
use tycho_simulation_server.Contract.Recovery.{new_manifest, new_start, new_catch_up, new_commit}
use tycho_simulation_server.Publisher.Errors.{contract_error}
use tycho_simulation_server.Publisher.Append.{Environment}
use tycho_simulation_server.Publisher.Size.{byte_len}
use tycho_simulation_server.Publisher.Fragments.{RecoveryFragment}
use tycho_simulation_server.Publisher.Recovery.{
  RecoveryTransaction, RecoveryTarget, checked_add, fits_u32, sized_entry,
  build_recovery_chunk_entry, chunk_entries, buffer_a_entries, recovery_watermark, recovery_entries,
}
use tycho_simulation_server.Publisher.Recovery.Entries.{
  checked_add_lem, Part, the_start, the_chunk, the_catch_up, the_commit, IsPart, sized_entry-IsPart,
  new_catch_up-CatchUpOf, new_commit-CommitOf, new_manifest-StartOf, new_start-StartOf,
  chunk_rounds-IsPart,
}

abbrev pub chunk_parts : {T : Tycho} → ℕ → List RecoveryFragment → List (Part T)
chunk_parts index [] = []
chunk_parts index (f ∷ fs) = the_chunk index f ∷ chunk_parts (index + 1) fs

abbrev pub catch_up_parts : {T : Tycho} → ℕ → List (UpdateMessage T) → List (Part T)
catch_up_parts index [] = []
catch_up_parts index (u ∷ us) = the_catch_up index u ∷ catch_up_parts (index + 1) us

-- The start, a chunk for each fragment, an entry for each buffered update, and the commit, in this
-- order.
abbrev pub parts_of :
    {T : Tycho} → RecoveryTransaction T → List RecoveryFragment → ℕ → List (Part T)
parts_of tx fs watermark =
    the_start watermark
    ∷ (chunk_parts 0 fs ++ (catch_up_parts 0 tx.buffer_a ++ the_commit watermark ∷ []))

chunk_parts-length :
    (T : Tycho) (index : ℕ) (fs : List RecoveryFragment)
    → length (chunk_parts {T = T} index fs) ≡ length fs
chunk_parts-length T index [] = refl
chunk_parts-length T index (f ∷ fs) = ap suc (chunk_parts-length T (index + 1) fs)

catch_up_parts-length :
    {T : Tycho} (index : ℕ) (us : List (UpdateMessage T))
    → length (catch_up_parts index us) ≡ length us
catch_up_parts-length index [] = refl
catch_up_parts-length index (u ∷ us) = ap suc (catch_up_parts-length (index + 1) us)

module _ {T : Tycho} {W : Type 0} (env : Environment T W) (digest_bytes : Text → Text) (now : ℕ)
    (tx : RecoveryTransaction T) (target : RecoveryTarget) where
  -- The entries are the parts, one each, with consecutive numbers from `n`.
  abbrev pub Run : ℕ → List (Part T) → List StreamEntry → Type 0
  Run n [] [] = Unit
  Run n [] (e ∷ es) = ⊥
  Run n (x ∷ xs) [] = ⊥
  Run n (x ∷ xs) (e ∷ es) = IsPart env digest_bytes now tx target n x e × Run (n + 1) xs es

  Run-append :
      (n : ℕ) (xs ys : List (Part T)) (es ds : List StreamEntry)
      → Run n xs es
      → Run (n + length xs) ys ds
      → Run n (xs ++ ys) (es ++ ds)
  Run-append n [] ys [] ds h k = subst (λ m. Run m ys ds) (omega arith) k
  Run-append n [] ys (e ∷ es) ds h k = absurd h
  Run-append n (x ∷ xs) ys [] ds h k = absurd h
  Run-append n (x ∷ xs) ys (e ∷ es) ds (i, h) k =
      (i, Run-append (n + 1) xs ys es ds h (subst (λ m. Run m ys ds) (omega arith) k))

  Run-cons :
      (n m : ℕ) (x : Part T) (xs : List (Part T)) (e : StreamEntry) (es : List StreamEntry)
      → IsPart env digest_bytes now tx target m x e
      → m ≡ n
      → Run (n + 1) xs es
      → Run n (x ∷ xs) (e ∷ es)
  Run-cons n m x xs e es i q h = (subst (λ k. IsPart env digest_bytes now tx target k x e) q i, h)

  chunk_entries-Always :
      (index : ℕ) (fs : List RecoveryFragment)
      → Always
          (λ es. Run (target.next_entry_seq + 1 + index) (chunk_parts index fs) (map (λ c. c.0) es))
          (chunk_entries env digest_bytes now tx target index fs)
  unfolding chunk_entries build_recovery_chunk_entry
  chunk_entries-Always index [] = tt
  chunk_entries-Always index (f ∷ fs) =
      let from = target.next_entry_seq + 1 in
      Always-bind _ (checked_add target.next_entry_seq 1) _ (λ after_start q.
        Always-bind _ (checked_add after_start index) _ (λ n r.
          Always-bind _ (build_recovery_chunk_entry env digest_bytes now tx target n index f) _
            (λ entry s.
              Always-bind _ (chunk_entries env digest_bytes now tx target (index + 1) fs) _
                (λ entries t.
                  let part =
                    Always-ok (λ x. IsPart env digest_bytes now tx target n (the_chunk index f) x.0)
                      _ entry (chunk_rounds-IsPart env digest_bytes now tx target 4 n index f 1)
                      s in
                  let rest =
                    Always-ok
                      (λ es.
                        Run (from + (index + 1)) (chunk_parts (index + 1) fs) (map (λ c. c.0) es))
                      _ entries (chunk_entries-Always (index + 1) fs) t in
                  Run-cons (from + index) n (the_chunk index f) (chunk_parts (index + 1) fs) entry.0
                    (map (λ c. c.0) entries) part
                    (omega (arith, checked_add_lem _ _ _ q, checked_add_lem _ _ _ r))
                    (subst (λ k. Run k (chunk_parts (index + 1) fs) (map (λ c. c.0) entries))
                      (omega arith) rest)))))

  buffer_a_entries-Always :
      (chunk_count index : ℕ) (us : List (UpdateMessage T))
      → Always
          (Run (target.next_entry_seq + 1 + chunk_count + index) (catch_up_parts index us))
          (buffer_a_entries env digest_bytes now tx target chunk_count index us)
  unfolding buffer_a_entries
  buffer_a_entries-Always chunk_count index [] = tt
  buffer_a_entries-Always chunk_count index (u ∷ us) =
      let from = target.next_entry_seq + 1 + chunk_count in
      Always-bind _ (checked_add target.next_entry_seq 1) _ (λ after_start q.
        Always-bind _ (checked_add after_start chunk_count) _ (λ after_chunks r.
          Always-bind _ (checked_add after_chunks index) _ (λ n s.
            Always-bind _ (fits_u32 index) _ (λ _ _.
              Always-bind _
                (map_err contract_error (new_catch_up tx.recovery_id target.state_version index u))
                _
                (λ catch_up c.
                  Always-bind _ (sized_entry env digest_bytes now target n (catches_up catch_up)) _
                    (λ entry t.
                      Always-bind _
                        (buffer_a_entries env digest_bytes now tx target chunk_count (index + 1) us)
                        _
                        (λ entries v.
                          let rest =
                            Always-ok (Run (from + (index + 1)) (catch_up_parts (index + 1) us)) _
                              entries (buffer_a_entries-Always chunk_count (index + 1) us) v in
                          Run-cons (from + index) n (the_catch_up index u)
                            (catch_up_parts (index + 1) us) entry entries
                            (sized_entry-IsPart env digest_bytes now tx target n
                              (the_catch_up index u) (catches_up catch_up) entry t
                              (new_catch_up-CatchUpOf env digest_bytes now tx target index u
                                catch_up (past_map_err contract_error _ c)))
                            (omega (
                              arith,
                              checked_add_lem _ _ _ q,
                              checked_add_lem _ _ _ r,
                              checked_add_lem _ _ _ s,
                            ))
                            (subst (λ k. Run k (catch_up_parts (index + 1) us) entries)
                              (omega arith) rest))))))))

  watermark_lem :
      (chunks buffer_a w : ℕ)
      → recovery_watermark target chunks buffer_a ≡ ok w
      → w ≡ target.next_entry_seq + chunks + buffer_a + 1
  unfolding recovery_watermark checked_add
  watermark_lem chunks buffer_a w h = ground (arith, h)

  laid_out :
      (fs : List RecoveryFragment) (start commit : StreamEntry) (chunks buffer_a : List StreamEntry)
      (w : ℕ)
      → IsPart env digest_bytes now tx target target.next_entry_seq (the_start w) start
      → Run (target.next_entry_seq + 1 + 0) (chunk_parts 0 fs) chunks
      → Run (target.next_entry_seq + 1 + length fs + 0) (catch_up_parts 0 tx.buffer_a) buffer_a
      → IsPart env digest_bytes now tx target w (the_commit w) commit
      → w ≡ target.next_entry_seq + length fs + length tx.buffer_a + 1
      → Run target.next_entry_seq (parts_of tx fs w) (start ∷ (chunks ++ (buffer_a ++ commit ∷ [])))
  laid_out fs start commit chunks buffer_a w hs hc hb hw q =
      let n = target.next_entry_seq in
      let c = length (chunk_parts {T = T} 0 fs) in
      let lc = chunk_parts-length T 0 fs in
      let lb = catch_up_parts-length 0 tx.buffer_a in
      let tail =
        Run-append (n + 1 + c) (catch_up_parts 0 tx.buffer_a) (the_commit w ∷ []) buffer_a
          (commit ∷ [])
          (subst (λ k. Run k (catch_up_parts 0 tx.buffer_a) buffer_a) (omega (arith, lc)) hb)
          (
            subst (λ k. IsPart env digest_bytes now tx target k (the_commit w) commit)
                (omega (arith, q, lc, lb)) hw,
            tt,
          ) in
      (
        hs,
        Run-append (n + 1) (chunk_parts 0 fs) (catch_up_parts 0 tx.buffer_a ++ the_commit w ∷ [])
            chunks (buffer_a ++ commit ∷ [])
            (subst (λ k. Run k (chunk_parts 0 fs) chunks) (omega arith) hc) tail,
      )

  -- The entries for a watermark.
  record LaidOut (fs : List RecoveryFragment) (es : List StreamEntry) : Type 0 where
    watermark : ℕ
    at_the_end : watermark ≡ target.next_entry_seq + length fs + length tx.buffer_a + 1
    run : Run target.next_entry_seq (parts_of tx fs watermark) es

  recovery_entries-Always :
      (fs : List RecoveryFragment)
      → Always (LaidOut fs) (recovery_entries env digest_bytes now tx target fs)
  unfolding recovery_entries
  recovery_entries-Always fs =
      let digest = digest_bytes tx.replacement_json in
      Always-bind _ (recovery_watermark target (length fs) (length tx.buffer_a)) _ (λ watermark w.
        Always-bind _ (chunk_entries env digest_bytes now tx target 0 fs) _ (λ chunks c.
          Always-bind _ (fits_u32 (length tx.buffer_a)) _ (λ _ _.
            Always-bind _
              (map_err contract_error (
                new_manifest tx.recovery_id target.state_version tx.backends
                  (byte_len tx.replacement_json) (map (λ c. c.1) chunks) (map (λ f. f.digest) fs)
                  digest (length tx.buffer_a) watermark))
              _
              (λ manifest m.
                Always-bind _ (map_err contract_error (new_start manifest)) _ (λ start o.
                  Always-bind _
                    (sized_entry env digest_bytes now target target.next_entry_seq
                      (recovery_starts start))
                    _
                    (λ start_entry s.
                      Always-bind _
                        (buffer_a_entries env digest_bytes now tx target (length fs) 0 tx.buffer_a)
                        _
                        (λ buffer_a b.
                          Always-bind _
                            (map_err contract_error (
                              new_commit tx.recovery_id target.state_version tx.backends digest
                                (length tx.buffer_a) watermark))
                            _
                            (λ commit k.
                              Always-bind _
                                (sized_entry env digest_bytes now target watermark (commits commit))
                                _
                                (λ commit_entry e. record {
                                  watermark = watermark;
                                  at_the_end =
                                      watermark_lem (length fs) (length tx.buffer_a) watermark w;
                                  run =
                                      laid_out fs start_entry commit_entry (map (λ c. c.0) chunks)
                                        buffer_a watermark
                                        (sized_entry-IsPart env digest_bytes now tx target
                                          target.next_entry_seq (the_start watermark)
                                          (recovery_starts start) start_entry s
                                          (new_start-StartOf env digest_bytes now tx target
                                            watermark manifest start
                                            (past_map_err contract_error _ o)
                                            (new_manifest-StartOf env digest_bytes now tx target _ _
                                              _ watermark manifest
                                              (past_map_err contract_error _ m))))
                                        (Always-ok
                                          (λ es.
                                            Run (target.next_entry_seq + 1 + 0) (chunk_parts 0 fs)
                                              (map (λ c. c.0) es))
                                          _ chunks (chunk_entries-Always 0 fs) c)
                                        (Always-ok
                                          (Run (target.next_entry_seq + 1 + length fs + 0)
                                            (catch_up_parts 0 tx.buffer_a))
                                          _ buffer_a
                                          (buffer_a_entries-Always (length fs) 0 tx.buffer_a) b)
                                        (sized_entry-IsPart env digest_bytes now tx target watermark
                                          (the_commit watermark) (commits commit) commit_entry e
                                          (new_commit-CommitOf env digest_bytes now tx target
                                            watermark commit (past_map_err contract_error _ k)))
                                        (watermark_lem (length fs) (length tx.buffer_a) watermark
                                          w);
                                })))))))))

  -- The entries that a recovery prepares are, in this order, its start, a chunk for each fragment with
  -- its text and digest, an entry for each buffered update with that update, and its commit. They have
  -- consecutive sequence numbers from the publisher's next one, the stream and the target version;
  -- the start and the commit announce the number of the commit, the digest of the replacement and the
  -- count of the updates.
  pub recovery_entries-Run :
      (fs : List RecoveryFragment) (es : List StreamEntry)
      → recovery_entries env digest_bytes now tx target fs ≡ ok es
      → Run target.next_entry_seq
          (parts_of tx fs (target.next_entry_seq + length fs + length tx.buffer_a + 1))
          es
  recovery_entries-Run fs es h =
      let l = Always-ok (LaidOut fs) _ es (recovery_entries-Always fs) h in
      subst (λ w. Run target.next_entry_seq (parts_of tx fs w) es) l.at_the_end l.run
