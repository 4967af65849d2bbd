-- ===== src/AwsClients/Shared.antt =====
-- What calls of `GetS3ClientForBucket` of awsclients/awsclients.go do to each other.
use batchiepatchie.Prelude.{
  ℕ, String, true, ◌≡◌, refl, sym, ap, ◌∙◌, Option, none, some, List, [], ◌∷◌, ◌++◌, ◌==◌, eq_iff,
  eq_refl, subst, All, All-append, Bool-cases, Option-cases, inl, inr, map,
}
use batchiepatchie.Prelude.Dict.{lookup, insert, is_some, lookup-insert}
use batchiepatchie.Prelude.Io.{Io, Outcome, ok, err, panic, hang}
use batchiepatchie.AwsClients.{
  Client, Clients, Call, begun, asking, located, opening, ready, returned, failed, panicked,
  open_sessions, next, looked, kept, answered, opened_client,
}

-- The parts of a predicate of a list.
All-around :
    {A : Type 0} (P : A → Type 0) (before : List A) (a : A) (after : List A)
    → All P (before ++ a ∷ after)
    → All P before × (P a × All P after)
All-around P [] a after h = (tt, h)
All-around P (b ∷ before) a after h =
    let (hb, rest) = All-around P before a after h.1 in ((h.0, hb), rest)

module _ {V : Type 0} (get_bucket_region : String → Io V String)
    (new_session : String → Io V (Unit {0})) where
  -- Any number of calls, of which one at a time runs a section.
  pub data Runs (calls : List Call) (w : Clients × V) : List Call → Clients × V → Type 0 where
    started : Runs calls w calls w
    pick :
        {w' : Clients × V} (before : List Call) (call : Call) (after : List Call)
        → Runs calls w (before ++ call ∷ after) w'
        → Runs calls w
            (before ++ (next get_bucket_region new_session call w').0 ∷ after)
            (next get_bucket_region new_session call w').1

  -- AWS has answered a bucket's region so.
  abbrev pub IsRegionOf : String → String → Type 0
  IsRegionOf bucket region = (v : V) × ((get_bucket_region bucket v).0 ≡ ok region)

  -- The client is one for the bucket's region, and one is kept for the bucket.
  abbrev pub IsSound : Clients → Call → Type 0
  IsSound s (located bucket region) = IsRegionOf bucket region
  IsSound s (opening bucket region) = IsRegionOf bucket region
  IsSound s (ready bucket client) = IsRegionOf bucket client.region
  IsSound s (returned bucket client) =
      IsRegionOf bucket client.region × (is_some (lookup bucket s.of_bucket) ≡ true)
  IsSound s call = Unit {0}

  pub record IsValid (s : Clients) : Type 0 where
    pub bucket :
        (bucket : String) (client : Client)
        → lookup bucket s.of_bucket ≡ some client
        → IsRegionOf bucket client.region
    pub region :
        (region : String) (client : Client)
        → lookup region s.of_region ≡ some client
        → client.region ≡ region

  abbrev Grows : Clients → Clients → Type 0
  Grows s s' =
      (bucket : String)
      → is_some (lookup bucket s.of_bucket) ≡ true
      → is_some (lookup bucket s'.of_bucket) ≡ true

  -- What a section leaves.
  record After (s : Clients) (call : Call) (s' : Clients) : Type 0 where
    valid : IsValid s'
    sound : IsSound s' call
    grows : Grows s s'

  kept-IsRegionOf :
      (s : Clients) (bucket asked : String) (client found : Client)
      → IsValid s
      → IsRegionOf bucket client.region
      → lookup asked (insert bucket client s.of_bucket) ≡ some found
      → IsRegionOf asked found.region
  kept-IsRegionOf s bucket asked client found v r h =
      let l = sym (lookup-insert bucket asked client s.of_bucket) ∙ h in
      elim (Bool-cases (bucket == asked)) [
        | inl e ↦
            let c : client ≡ found = cc (rw e at l) in
            subst (λ b. IsRegionOf b found.region) ((eq_iff bucket asked).0 e)
              (subst (λ c. IsRegionOf bucket c.region) c r)
        | inr e ↦ v.bucket asked found (rw e at l)
      ]

  kept-region :
      (s : Clients) (client : Client) (asked : String) (found : Client)
      → IsValid s
      → lookup asked (insert client.region client s.of_region) ≡ some found
      → found.region ≡ asked
  kept-region s client asked found v h =
      let l = sym (lookup-insert client.region asked client s.of_region) ∙ h in
      elim (Bool-cases (client.region == asked)) [
        | inl e ↦
            let c : client ≡ found = cc (rw e at l) in
            sym (ap (λ c. c.region) c) ∙ (eq_iff client.region asked).0 e
        | inr e ↦ v.region asked found (rw e at l)
      ]

  insert-Grows :
      (s : Clients) (bucket : String) (client : Client) (asked : String)
      → is_some (lookup asked s.of_bucket) ≡ true
      → is_some (lookup asked (insert bucket client s.of_bucket)) ≡ true
  insert-Grows s bucket client asked h =
      ap is_some (lookup-insert bucket asked client s.of_bucket)
      ∙ elim (Bool-cases (bucket == asked)) [ inl e ↦ rw e refl | inr e ↦ rw e h ]

  inserted :
      (s : Clients) (bucket : String) (client : Client)
      → is_some (lookup bucket (insert bucket client s.of_bucket)) ≡ true
  inserted s bucket client =
      ap is_some (lookup-insert bucket bucket client s.of_bucket) ∙ rw (eq_refl bucket) refl

  looked-After :
      (s : Clients) (bucket : String) (o : Option Client)
      → IsValid s
      → lookup bucket s.of_bucket ≡ o
      → After s (looked bucket o) s
  looked-After s bucket none v e = record { valid = v; sound = tt; grows = λ b h. h }
  looked-After s bucket (some client) v e = record {
    valid = v;
    sound = (v.bucket bucket client e, ap is_some e);
    grows = λ b h. h;
  }

  answered-After :
      (s : Clients) (bucket : String) (v : V) (o : Outcome String)
      → IsValid s
      → (get_bucket_region bucket v).0 ≡ o
      → After s (answered bucket o) s
  answered-After s bucket v (ok region) i e = record { valid = i; sound = (v, e); grows = λ b h. h }
  answered-After s bucket v (err _) i e = record { valid = i; sound = tt; grows = λ b h. h }
  answered-After s bucket v panic i e = record { valid = i; sound = tt; grows = λ b h. h }
  answered-After s bucket v hang i e = record { valid = i; sound = tt; grows = λ b h. h }

  kept-After :
      (s : Clients) (bucket region : String) (o : Option Client)
      → IsValid s
      → IsRegionOf bucket region
      → lookup region s.of_region ≡ o
      → After s (kept bucket region o s).0 (kept bucket region o s).1
  kept-After s bucket region none v r e = record { valid = v; sound = r; grows = λ b h. h }
  kept-After s bucket region (some client) v r e =
      let r' = subst (IsRegionOf bucket) (sym (v.region region client e)) r in
      record {
        valid = record {
          bucket = λ asked found. kept-IsRegionOf s bucket asked client found v r';
          region = v.region;
        };
        sound = (r', inserted s bucket client);
        grows = insert-Grows s bucket client;
      }

  opened-After :
      (s : Clients) (bucket region : String) (o : Outcome (Unit {0}))
      → IsValid s
      → IsRegionOf bucket region
      → After s (opened_client bucket region o s).0 (opened_client bucket region o s).1
  opened-After s bucket region (ok _) v r = record {
    valid = record { bucket = v.bucket; region = v.region };
    sound = r;
    grows = λ b h. h;
  }
  opened-After s bucket region (err _) v r = record { valid = v; sound = tt; grows = λ b h. h }
  opened-After s bucket region panic v r = record { valid = v; sound = tt; grows = λ b h. h }
  opened-After s bucket region hang v r = record { valid = v; sound = tt; grows = λ b h. h }

  next-After :
      (call : Call) (s : Clients) (v : V)
      → IsValid s
      → IsSound s call
      → let (call', w) = next get_bucket_region new_session call (s, v) in After s call' w.0
  unfolding next
  next-After (begun bucket) s v i h = looked-After s bucket (lookup bucket s.of_bucket) i refl
  next-After (asking bucket) s v i h =
      answered-After s bucket v (get_bucket_region bucket v).0 i refl
  next-After (located bucket region) s v i h =
      kept-After s bucket region (lookup region s.of_region) i h refl
  next-After (opening bucket region) s v i h =
      opened-After s bucket region (new_session region v).0 i h
  next-After (ready bucket client) s v i h = record {
    valid = record {
      bucket = λ asked found. kept-IsRegionOf s bucket asked client found i h;
      region = λ asked found. kept-region s client asked found i;
    };
    sound = (h, inserted s bucket client);
    grows = insert-Grows s bucket client;
  }
  next-After (returned bucket client) s v i h = record { valid = i; sound = h; grows = λ b h. h }
  next-After (failed bucket e) s v i h = record { valid = i; sound = h; grows = λ b h. h }
  next-After (panicked bucket) s v i h = record { valid = i; sound = h; grows = λ b h. h }

  IsSound-Grows : (call : Call) (s s' : Clients) → Grows s s' → IsSound s call → IsSound s' call
  IsSound-Grows (begun bucket) s s' g h = tt
  IsSound-Grows (asking bucket) s s' g h = tt
  IsSound-Grows (located bucket region) s s' g h = h
  IsSound-Grows (opening bucket region) s s' g h = h
  IsSound-Grows (ready bucket client) s s' g h = h
  IsSound-Grows (returned bucket client) s s' g h = (h.0, g bucket h.1)
  IsSound-Grows (failed bucket e) s s' g h = tt
  IsSound-Grows (panicked bucket) s s' g h = tt

  All-IsSound :
      (calls : List Call) (s s' : Clients)
      → Grows s s'
      → All (IsSound s) calls
      → All (IsSound s') calls
  All-IsSound [] s s' g h = tt
  All-IsSound (call ∷ calls) s s' g h =
      (IsSound-Grows call s s' g h.0, All-IsSound calls s s' g h.1)

  Runs-All :
      {calls : List Call} {w : Clients × V} {calls' : List Call} {w' : Clients × V}
      → Runs calls w calls' w'
      → IsValid w.0
      → All (IsSound w.0) calls
      → IsValid w'.0 × All (IsSound w'.0) calls'
  Runs-All started i h = (i, h)
  Runs-All (pick {w'} before call after runs) i h =
      let (i', h') = Runs-All runs i h in
      let (hb, (hc, ha)) = All-around (IsSound w'.0) before call after h' in
      let a = next-After call w'.0 w'.1 i' hc in
      let s'' = (next get_bucket_region new_session call w').1.0 in
      (
        a.valid,
        All-append (IsSound s'') before ((next get_bucket_region new_session call w').0 ∷ after)
            (All-IsSound before w'.0 s'' a.grows hb)
            (a.sound, All-IsSound after w'.0 s'' a.grows ha),
      )

  begun-All : (s : Clients) (buckets : List String) → All (IsSound s) (map begun buckets)
  begun-All s [] = tt
  begun-All s (bucket ∷ buckets) = (tt, begun-All s buckets)

  open_sessions-IsValid : (n : ℕ) → IsValid (open_sessions n)
  unfolding lookup
  open_sessions-IsValid n = record { bucket = λ b c h. cc; region = λ r c h. cc }

  -- The next call for a bucket returns at once.
  abbrev pub IsAnswered : String → Clients × V → Type 0
  IsAnswered bucket w =
      (client : Client) × IsRegionOf bucket client.region
      × (next get_bucket_region new_session (begun bucket) w ≡ (returned bucket client, w))

  is_some-IsAnswered :
      (bucket : String) (s : Clients) (v : V)
      → IsValid s
      → is_some (lookup bucket s.of_bucket) ≡ true
      → IsAnswered bucket (s, v)
  unfolding next
  is_some-IsAnswered bucket s v i h = elim (Option-cases (lookup bucket s.of_bucket)) [
    | inl n ↦ cc (rw n at h)
    | inr (client, e) ↦ (client, i.bucket bucket client e, rw e refl)
  ]

  -- However calls for any buckets interleave, a client that one of them has returned is for a
  -- region that AWS gave for its bucket, and a further call for that bucket returns such a client
  -- at once, without asking AWS.
  pub Runs-IsAnswered :
      (buckets : List String) (n : ℕ) (v : V) (before : List Call) (bucket : String)
      (client : Client) (after : List Call) (w : Clients × V)
      → Runs (map begun buckets) (open_sessions n, v) (before ++ returned bucket client ∷ after) w
      → IsRegionOf bucket client.region × IsAnswered bucket w
  Runs-IsAnswered buckets n v before bucket client after w runs =
      let (i, h) = Runs-All runs (open_sessions-IsValid n) (begun-All (open_sessions n) buckets) in
      let (_, ((r, k), _)) = All-around (IsSound w.0) before (returned bucket client) after h in
      (r, is_some-IsAnswered bucket w.0 w.1 i k)
