-- ===== src/Notifications/Once.antt =====
-- A notification that has gone out is not sent again.
use accountant_backend.Prelude.{
  ◌≡◌, ◌⊎◌, refl, ap, sym, subst, arith, Bool, true, false, not, ◌||◌, ◌∷◌, Text, any_where, ◌==◌,
  ok, raised, Result, Bool-cases, inl, inr, mail_error, integrity_error, bind_ok, bind_raised, pure,
  ◌>>◌,
}
use accountant_backend.Domain.{Uuid, Instant}
use accountant_backend.Schema.{NotificationDeliveryModel, Database}
use accountant_backend.Ledger.Categories.{user_exists}
use accountant_backend.Mail.{Mail, Postal, send, on_database}
use accountant_backend.Notifications.{mark_delivered, is_delivery, deliver}

-- a constraint refuses the record of a delivery
abbrev is_refused : Uuid → Uuid → Text → Text → Database → Bool
is_refused id u k key db =
    any_where (λ (d : NotificationDeliveryModel). d.id == id || is_delivery u k key d) db.deliveries
    || not (user_exists db u)

-- the record of a delivery
abbrev pub delivery : Uuid → Uuid → Text → Text → Instant → NotificationDeliveryModel
delivery id u k key at = record {
  id = id;
  user_id = u;
  kind = k;
  reference_key = key;
  delivered_at = at;
}

module _ (accepts : Mail → Bool) (id u : Uuid) (k key : Text) (at : Instant) where
  unmarked :
      (db : Database)
      → is_refused id u k key db ≡ true
      → mark_delivered id u k key at db ≡ (raised integrity_error, db)
  unfolding mark_delivered
  unmarked db refused = rw refused refl

  marked :
      (db : Database)
      → is_refused id u k key db ≡ false
      → (mark_delivered id u k key at db).0 ≡ ok tt
        × ((mark_delivered id u k key at db).1.deliveries ≡ delivery id u k key at ∷ db.deliveries)
  unfolding mark_delivered
  marked db taken = ground arith

  sent :
      (mail : Mail) (s : Postal)
      → accepts mail ≡ true
      → deliver accepts id u k key at mail s
        ≡ (on_database (mark_delivered id u k key at) >> pure true)
            (record s { outbox = mail ∷ s.outbox })
  unfolding deliver send
  sent mail s taken =
      bind_ok (send accepts mail) (λ _. on_database (mark_delivered id u k key at) >> pure true) s
        (rw taken refl)

  -- the three ways of a notification, told by the result and the state after it
  abbrev pub IsDelivery : Mail → Postal → Result Bool × Postal → Type 0
  IsDelivery mail s (r, after) =
      ((accepts mail ≡ false) × (r ≡ raised mail_error) × (after ≡ s))
      ⊎ ((accepts mail ≡ true)
          × (r ≡ raised integrity_error)
          × (after ≡ record s { outbox = mail ∷ s.outbox }))
      ⊎ ((accepts mail ≡ true)
          × (r ≡ ok true)
          × (after.outbox ≡ mail ∷ s.outbox)
          × (after.db.deliveries ≡ delivery id u k key at ∷ s.db.deliveries))

  marking : (mail : Mail) (s : Postal) → Result Bool × Postal
  marking mail s =
      (on_database (mark_delivered id u k key at) >> pure true)
        (record s { outbox = mail ∷ s.outbox })

  marking-IsDelivery :
      (mail : Mail) (s : Postal) → accepts mail ≡ true → IsDelivery mail s (marking mail s)
  unfolding marking
  marking-IsDelivery mail s taken =
      let mark = on_database (mark_delivered id u k key at) in
      let s1 : Postal = record s { outbox = mail ∷ s.outbox } in
      elim (Bool-cases (is_refused id u k key s.db)) [
        | inl refused ↦
            subst (IsDelivery mail s)
              (sym (
                bind_raised mark (λ _. pure true) s1
                  (ap (λ (o : Result (Unit {0}) × Database). (o.0, record s1 { db = o.1 }))
                    (unmarked s.db refused))))
              (inr (inl (taken, refl, refl)))
        | inr free ↦
            let (done, row) = marked s.db free in
            subst (IsDelivery mail s)
              (sym (
                bind_ok mark (λ _. pure true) s1
                  (ap
                    (λ (r : Result (Unit {0})).
                      (r, record s1 { db = (mark_delivered id u k key at s.db).1 }))
                    done)))
              (inr (inr (taken, refl, refl, row)))
      ]

  -- A notification goes out and is recorded, or the server refuses it and nothing changes, or it
  -- goes out and a constraint of the deliveries refuses the record.
  pub deliver-IsDelivery :
      (mail : Mail) (s : Postal) → IsDelivery mail s (deliver accepts id u k key at mail s)
  unfolding deliver send marking
  deliver-IsDelivery mail s = elim (Bool-cases (accepts mail)) [
    | inl taken ↦
        subst (IsDelivery mail s) (sym (sent mail s taken)) (marking-IsDelivery mail s taken)
    | inr refused ↦
        subst (IsDelivery mail s)
          (sym (
            bind_raised (send accepts mail)
              (λ _. on_database (mark_delivered id u k key at) >> pure true) s (rw refused refl)))
          (inl (refused, refl, refl))
  ]
