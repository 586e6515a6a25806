-- ===== src/Publisher/Commit/Sent.antt =====
-- The entries that `publish_recovery` of redis_publisher.rs hands to the writer.
use tycho_simulation_server.Base.{
  ℕ, Option, some, List, [], ◌∷◌, Bool, false, Text, ok, err, ◌≡◌, refl, Bool-cases, inl, inr,
}
use tycho_simulation_server.Contract.External.{Tycho}
use tycho_simulation_server.Contract.Payload.{Payload}
use tycho_simulation_server.Contract.Boundary.{StreamEntry}
use tycho_simulation_server.Publisher.State.{PublisherState}
use tycho_simulation_server.Publisher.Append.{Environment, Outcome}
use tycho_simulation_server.Publisher.Append.Sequence.{
  Moved, AppendOutcome, append_entry-AppendOutcome,
}
use tycho_simulation_server.Publisher.Append.Sent.{Delivered, EntrySent, append_entry-EntrySent}
use tycho_simulation_server.Publisher.Gate.{Clock}
use tycho_simulation_server.Publisher.Commit.{
  CancelPoint, before_entry, is_commit, append_then, append_all,
}

module _ {T : Tycho} {W : Type 0} (env : Environment T W) where
  -- The writer took the entries one after the other, the last one with the id `final`.
  abbrev pub Appended :
      List StreamEntry
      → Option Text
      → PublisherState T
      → W
      → Option Text
      → PublisherState T
      → W
      → Type 0
  Appended [] last s w final t v = (final ≡ last) × (t ≡ s) × (v ≡ w)
  Appended (e ∷ es) last s w final t v =
      (id : Text) × (u : PublisherState T) × (x : W) × Moved false id s u
      × (e.message_seq ≡ s.next_entry_seq)
      × Delivered env s.generation e id w x
      × Appended es (some id) u x final t v

  unfoldable pub AllOutcome :
      List StreamEntry → Option Text → PublisherState T → W → Outcome T W (Option Text) → Type 0
  AllOutcome es last s w (ok final, t, v) = Appended es last s w final t v
  AllOutcome es last s w (err e, t, v) = Unit

module _ {T : Tycho} {W : Type 0} (env : Environment T W) (digest_bytes : Text → Text)
    (clock : Clock) (arrivals : List (List (Payload T))) (cancelled : CancelPoint → Bool) where
  longer :
      (e : StreamEntry) (es : List StreamEntry) (last : Option Text) (id : Text)
      (s u : PublisherState T) (w x : W) (r : Outcome T W (Option Text))
      → Moved false id s u
      → EntrySent env s e w (ok id, u, x)
      → AllOutcome env es (some id) u x r
      → AllOutcome env (e ∷ es) last s w r
  unfolding AllOutcome EntrySent
  longer e es last id s u w x (ok final, t, v) m (n, d) a = (id, u, x, m, n, d, a)
  longer e es last id s u w x (err f, t, v) m d a = tt

  append_then-AllOutcome :
      (n : ℕ) (commit : Bool) (e : StreamEntry) (es : List StreamEntry) (last : Option Text)
      (rest : Text → PublisherState T → W → Outcome T W (Option Text)) (s : PublisherState T)
      (w : W) (r : Outcome T W Text)
      → ((id : Text) (u : PublisherState T) (x : W) → AllOutcome env es (some id) u x (rest id u x))
      → AppendOutcome env false s r
      → EntrySent env s e w r
      → AllOutcome env
          (e ∷ es)
          last
          s
          w
          (append_then env digest_bytes clock arrivals cancelled n commit rest r)
  unfolding append_then AppendOutcome AllOutcome
  append_then-AllOutcome n commit e es last rest s w (ok id, u, x) k m d =
      longer e es last id s u w x (rest id u x) m d (k id u x)
  append_then-AllOutcome n commit e es last rest s w (err f, u, x) k m d = tt

  pub append_all-AllOutcome :
      (n : ℕ) (last : Option Text) (es : List StreamEntry) (s : PublisherState T) (w : W)
      → AllOutcome env es last s w
          (append_all env digest_bytes clock arrivals cancelled n last es s w)
  unfolding append_all AllOutcome
  append_all-AllOutcome n last [] s w = (refl, refl, refl)
  append_all-AllOutcome n last (e ∷ es) s w =
      elim (Bool-cases (cancelled (before_entry e.message_seq))) [
        | inl q ↦ rw q tt
        | inr q ↦ rw q (
            append_then-AllOutcome n (is_commit e.kind) e es last _ s w _
              (λ id t v. append_all-AllOutcome n (some id) es t v)
              (append_entry-AppendOutcome env _ s e w) (append_entry-EntrySent env _ s e w))
      ]
