-- ===== src/Backend/Socket/Rounds/Told.antt =====
-- What the page gets of one broadcast, turn by turn.
use mathlib.Core.List.{append_assoc}
use zerokey.Base.{
  arith, ℕ, suc, nat_eq, ◌≤◌, ◌≡◌, refl, sym, ap, ◌∙◌, inl, inr, Bool, true, false, String, Option,
  none, str_eq, List, [], ◌∷◌, ◌++◌, map, length, keep, Bool-cases,
}
use zerokey.Api.Types.{Json, AuditLogEvent}
use zerokey.Runtime.World.{World}
use zerokey.Observability
use zerokey.Backend.Events.{has}
use zerokey.Backend.Events.Broadcast.{IsDistinct, same_number}
use zerokey.Backend.Events.Sending.{sending, finished, Flight, Broadcasting, next}
use zerokey.Backend.Events.Sending.Quiet.{midway, turn, next-midway, last_turn}
use zerokey.Backend.Socket.{
  Frame, sent_json, sent_text, greeting_message, event_json, Phase, absent, greeting, receiving,
  ended, Hub, Happening, greets, says, resumes, happen, happened, greet, reply, pong, delivered,
  set_phase,
}
use zerokey.Backend.Socket.Frames.{frames_for}
use zerokey.Backend.Socket.Live.{
  heard, heard_nothing, with_logs, heard_event, heard_greeting, heard_pong, heard-happened,
}
use zerokey.Backend.Socket.Rounds.{
  Beat, goes, greeted, asked, beat, goings, told, landing, resumed-landing, over-landing,
}

module _ (as_event : Json → AuditLogEvent) (parse : String → Option Json)
    (casts : (e : AuditLogEvent) → as_event (event_json e) ≡ e) (refuses : parse "pong" ≡ none)
    (x n : ℕ) where
  abbrev hears : List (ℕ × Frame) → World Observability.State → World Observability.State
  hears frames w = heard as_event parse (frames_for x frames) w

  -- The set after the steps, and what they make of the page's events.
  abbrev pub IsTold :
      List ℕ → (List AuditLogEvent → List AuditLogEvent) → Hub × List (ℕ × Frame) → Type 0
  IsTold set f r =
      (r.0.service.active_connections ≡ set)
      × ((w : World Observability.State) → hears r.1 w ≡ with_logs as_event parse casts refuses f w)

  pub after-IsTold :
      (set : List ℕ) (f g : List AuditLogEvent → List AuditLogEvent) (c : Happening)
      (cs : List Happening) (h k : Hub) (frames : List (ℕ × Frame))
      → happen n c h ≡ (k, frames)
      → ((w : World Observability.State)
          → hears frames w ≡ with_logs as_event parse casts refuses g w)
      → IsTold set f (happened n cs k)
      → IsTold set (λ past. f (g past)) (happened n (c ∷ cs) h)
  unfolding happened
  after-IsTold set f g c cs h k frames e first (kept, later) = (
    ap (λ r. (happened n cs r.0).0.service.active_connections) e ∙ kept,
    λ w.
        heard-happened as_event parse casts refuses x n c cs h w
        ∙ ap (λ r. hears (happened n cs r.0).1 (hears r.1 w)) e
        ∙ ap (hears (happened n cs k).1) (first w)
        ∙ later (with_logs as_event parse casts refuses g w),
  )

  pub nothing_heard : (w : World Observability.State) → hears [] w ≡ w
  nothing_heard w = heard_nothing as_event parse w

  one_heard :
      (y : ℕ) (f : Frame)
      → ((w : World Observability.State) → heard as_event parse (f ∷ []) w ≡ w)
      → (w : World Observability.State) → hears ((y, f) ∷ []) w ≡ w
  one_heard y f silent w = elim (Bool-cases (nat_eq x y)) [
    | inl same ↦ rw same (silent w)
    | inr other ↦ rw other (nothing_heard w)
  ]

  -- A step that changes the phases alone, and sends nothing that the page makes use of.
  record Hushed (h : Hub) (r : Hub × List (ℕ × Frame)) : Type 0 where
    phases : ℕ → Phase
    frames : List (ℕ × Frame)
    there : r ≡ (record h { phase = phases }, frames)
    silent : (w : World Observability.State) → hears frames w ≡ w

  still-Hushed : (h : Hub) → Hushed h (h, [])
  still-Hushed h = record { phases = h.phase; frames = []; there = refl; silent = nothing_heard }

  greet-Hushed : (y : ℕ) (p : Phase) (h : Hub) → Hushed h (greet y true p h)
  unfolding greet
  greet-Hushed y greeting h = record {
    phases = (set_phase y receiving h).phase;
    frames = (y, sent_json greeting_message) ∷ [];
    there = refl;
    silent = one_heard y (sent_json greeting_message) (heard_greeting as_event parse casts refuses);
  }
  greet-Hushed y absent h = still-Hushed h
  greet-Hushed y receiving h = still-Hushed h
  greet-Hushed y ended h = still-Hushed h

  reply-Hushed :
      (y : ℕ) (data_text : String) (p : Phase) (h : Hub) → Hushed h (reply y data_text true p h)
  unfolding reply pong
  reply-Hushed y data_text receiving h = elim (Bool-cases (str_eq data_text "ping")) [
    | inl ping ↦ rw ping (record {
      phases = h.phase;
      frames = (y, sent_text "pong") ∷ [];
      there = refl;
      silent = one_heard y (sent_text "pong") (heard_pong as_event parse casts refuses);
    })
    | inr other ↦ rw other (still-Hushed h)
  ]
  reply-Hushed y data_text absent h = still-Hushed h
  reply-Hushed y data_text greeting h = still-Hushed h
  reply-Hushed y data_text ended h = still-Hushed h

  module _ (e : AuditLogEvent) (others : List (AuditLogEvent × Flight)) (sends : ℕ → Bool)
      (reached : sends x ≡ true) where
    Hushed-IsTold :
        (set : List ℕ) (f : List AuditLogEvent → List AuditLogEvent) (c : Happening)
        (cs : List Happening) (phases : ℕ → Phase) (b : Broadcasting)
        → Hushed (landing phases others e b) (happen n c (landing phases others e b))
        → ((q : ℕ → Phase) → IsTold set f (happened n cs (landing q others e b)))
        → IsTold set f (happened n (c ∷ cs) (landing phases others e b))
    Hushed-IsTold set f c cs phases b hush rest =
        after-IsTold set f (λ past. past) c cs (landing phases others e b)
          (landing hush.phases others e b) hush.frames hush.there hush.silent (rest hush.phases)

    over-IsTold :
        (set : List ℕ) (bs : List Beat) (phases : ℕ → Phase) (b : Broadcasting)
        → b.flight.stage ≡ finished
        → b.service.active_connections ≡ set
        → IsTold set (λ past. past) (happened n (map (beat sends) bs) (landing phases others e b))
    unfolding happened happen
    over-IsTold set [] phases b over kept = (kept, nothing_heard)
    over-IsTold set (goes hint ∷ bs) phases b over kept =
        after-IsTold set (λ past. past) (λ past. past) (resumes 0 hint sends) (map (beat sends) bs)
          (landing phases others e b) (landing phases others e b) []
          (over-landing n e others sends hint phases b over) nothing_heard
          (over-IsTold set bs phases b over kept)
    over-IsTold set (greeted y ∷ bs) phases b over kept =
        Hushed-IsTold set (λ past. past) (greets y true) (map (beat sends) bs) phases b
          (greet-Hushed y (phases y) (landing phases others e b))
          (λ q. over-IsTold set bs q b over kept)
    over-IsTold set (asked y data_text ∷ bs) phases b over kept =
        Hushed-IsTold set (λ past. past) (says y data_text true) (map (beat sends) bs) phases b
          (reply-Hushed y data_text (phases y) (landing phases others e b))
          (λ q. over-IsTold set bs q b over kept)

    delivered_heard :
        (y : ℕ) (w : World Observability.State)
        → hears (delivered sends e (sending y)) w
          ≡ with_logs as_event parse casts refuses (told (nat_eq x y) e) w
    unfolding delivered told
    delivered_heard y w = elim (Bool-cases (nat_eq x y)) [
      | inl same ↦
          rw (sym (ap sends (same_number x y same)) ∙ reached, same)
            (heard_event as_event parse casts refuses e w)
      | inr other ↦ elim (Bool-cases (sends y)) [
        | inl sent ↦ rw (sent, other) (nothing_heard w)
        | inr lost ↦ rw (lost, other) (nothing_heard w)
      ]
    ]

    told_split :
        (y : ℕ) (rest : List ℕ)
        → has y rest ≡ false
        → Path
            (List AuditLogEvent → List AuditLogEvent)
            (λ past. told (has x rest) e (told (nat_eq x y) e past))
            (told (has x (y ∷ rest)) e)
    unfolding told
    told_split y rest fresh = elim (Bool-cases (nat_eq x y)) [
      | inl same ↦ rw (ap (λ z. has z rest) (same_number x y same) ∙ fresh, same) refl
      | inr other ↦ rw other refl
    ]

    pub flown-IsTold :
        (kept : List AuditLogEvent) (changes : ℕ) (order visited : List ℕ) (y : ℕ) (rest : List ℕ)
        (bs : List Beat) (phases : ℕ → Phase)
        → order ≡ visited ++ y ∷ rest
        → IsDistinct (y ∷ rest)
        → suc (length rest) ≤ goings bs
        → IsTold (keep sends order) (told (has x (y ∷ rest)) e) (
            happened n
              (map (beat sends) bs)
              (landing phases others e (midway sends kept changes order visited y rest)))
    unfolding happened happen told
    flown-IsTold kept changes order visited y rest [] phases parted apart enough =
        absurd (omega arith)
    flown-IsTold kept changes order visited y [] (goes hint ∷ bs) phases parted apart enough =
        let over = last_turn sends kept changes order (visited ++ y ∷ []) y parted in
        let landed : Broadcasting =
          next [] (midway sends kept changes order (visited ++ y ∷ []) y []) in
        rw (sym (told_split y [] refl)) (
          after-IsTold (keep sends order) (λ past. past) (told (nat_eq x y) e)
            (resumes 0 hint sends) (map (beat sends) bs)
            (landing phases others e (midway sends kept changes order visited y []))
            (landing phases others e landed) (delivered sends e (sending y))
            (resumed-landing n e others sends hint phases
                (midway sends kept changes order visited y [])
              ∙ ap (λ b. (landing phases others e b, delivered sends e (sending y)))
                  (turn sends hint kept changes order visited y []))
            (delivered_heard y)
            (over-IsTold (keep sends order) bs phases landed over.stage over.connected))
    flown-IsTold kept changes order visited y (z ∷ rest) (goes hint ∷ bs) phases parted apart
          enough =
        rw (sym (told_split y (z ∷ rest) apart.0)) (
          after-IsTold (keep sends order) (told (has x (z ∷ rest)) e) (told (nat_eq x y) e)
            (resumes 0 hint sends) (map (beat sends) bs)
            (landing phases others e (midway sends kept changes order visited y (z ∷ rest)))
            (landing phases others e (midway sends kept changes order (visited ++ y ∷ []) z rest))
            (delivered sends e (sending y))
            (resumed-landing n e others sends hint phases
                (midway sends kept changes order visited y (z ∷ rest))
              ∙ ap (λ b. (landing phases others e b, delivered sends e (sending y)))
                  (turn sends hint kept changes order visited y (z ∷ rest)
                    ∙ next-midway sends kept changes order (visited ++ y ∷ []) y z rest))
            (delivered_heard y)
            (flown-IsTold kept changes order (visited ++ y ∷ []) z rest bs phases
              (parted ∙ sym (append_assoc visited (y ∷ []) (z ∷ rest))) apart.1 (omega arith)))
    flown-IsTold kept changes order visited y rest (greeted z ∷ bs) phases parted apart enough =
        Hushed-IsTold (keep sends order) (told (has x (y ∷ rest)) e) (greets z true)
          (map (beat sends) bs) phases (midway sends kept changes order visited y rest)
          (greet-Hushed z (phases z)
            (landing phases others e (midway sends kept changes order visited y rest)))
          (λ q. flown-IsTold kept changes order visited y rest bs q parted apart enough)
    flown-IsTold kept changes order visited y rest (asked z data_text ∷ bs) phases parted apart
          enough =
        Hushed-IsTold (keep sends order) (told (has x (y ∷ rest)) e) (says z data_text true)
          (map (beat sends) bs) phases (midway sends kept changes order visited y rest)
          (reply-Hushed z data_text (phases z)
            (landing phases others e (midway sends kept changes order visited y rest)))
          (λ q. flown-IsTold kept changes order visited y rest bs q parted apart enough)
