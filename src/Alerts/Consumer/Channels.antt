-- ===== src/Alerts/Consumer/Channels.antt =====
-- Which channels an alert reaches.
use flood_monitoring_and_man.Common.{
  suc, List, [], ◌∷◌, ◌++◌, Option, none, some, Bool, true, false, ◌≡◌, refl, arith, string_eq,
  if◌then◌else◌, inl, inr, All, length, length-append, append_assoc, append-nil, Bool-cases, sym,
  ap, ◌∙◌,
}
use flood_monitoring_and_man.RuleEngine.Models.{Alert, high}
use flood_monitoring_and_man.Alerts.Table.{Table, new_row, insert_alert, severity_eq}
use flood_monitoring_and_man.Alerts.Table.Once.{
  HasUniqueIds, insert_alert-cases, insert_alert-HasUniqueIds,
}
use flood_monitoring_and_man.Alerts.Consumer.{
  Channel, area_channel, high_severity, Raw, valid, invalid, bad_unicode, Delivery, Service,
  new_service, publish_to, publish, handle_raw, handle, consume, after_insert,
}

module _ {F : Type 0} where
  -- Every alert to its area's channel, and one of high severity to the global one too.
  abbrev pub announcement : Alert F → List (Channel × Alert F)
  announcement a =
      (area_channel a.area_id, a)
      ∷ (if severity_eq a.severity high then (high_severity, a) ∷ [] else [])

  abbrev pub announcements : Table F → List (Channel × Alert F)
  announcements [] = []
  announcements (r ∷ t) = announcement r.alert ++ announcements t

  announcements-append :
      (t u : Table F) → announcements (t ++ u) ≡ announcements t ++ announcements u
  announcements-append [] u = refl
  announcements-append (r ∷ t) u =
      ap (λ l. announcement r.alert ++ l) (announcements-append t u)
      ∙ sym (append_assoc (announcement r.alert) (announcements t) (announcements u))

  -- The table has no alert twice, and each of its alerts was published once to each of its channels,
  -- in the order of the table.
  pub record IsAnnounced (s : Service F) : Type 0 where
    pub unique : HasUniqueIds s.table
    pub announced : s.published ≡ announcements s.table
    pub counted : s.persisted ≡ length s.table

  abbrev pub IsPublished : Delivery F → Type 0
  IsPublished d = (d.area_published ≡ true) × (d.high_published ≡ true)

  publish-announcement :
      (a : Alert F) (s : Service F)
      → (publish a true true s).published ≡ s.published ++ announcement a
  unfolding publish publish_to
  publish-announcement a s = elim (Bool-cases (severity_eq a.severity high)) [
    | inl urgent ↦ ground (
      arith,
      append_assoc s.published ((area_channel a.area_id, a) ∷ []) ((high_severity, a) ∷ []),
    )
    | inr usual ↦ ground arith
  ]

  publish-rest :
      (a : Alert F) (s : Service F)
      → ((publish a true true s).table ≡ s.table)
        × ((publish a true true s).persisted ≡ s.persisted)
  unfolding publish publish_to
  publish-rest a s = ground arith

  stored-IsAnnounced :
      (a : Alert F) (d : Delivery F) (s : Service F) (o : Option (Table F × Bool))
      → IsPublished d
      → IsAnnounced s
      → insert_alert d.area_exists d.now a s.table ≡ o
      → IsAnnounced (after_insert a d o s)
  stored-IsAnnounced a d s none answers h i = record {
    unique = h.unique;
    announced = h.announced;
    counted = h.counted;
  }
  stored-IsAnnounced a d s (some (u, false)) answers h i = record {
    unique = h.unique;
    announced = h.announced;
    counted = h.counted;
  }
  stored-IsAnnounced a d s (some (u, true)) answers h i =
      let s' : Service F = record s { table = u; persisted = suc s.persisted } in
      let grown : u ≡ s.table ++ new_row d.now a ∷ [] =
        ground (arith, insert_alert-cases d.area_exists d.now a s.table u true i) in
      let unique = insert_alert-HasUniqueIds d.area_exists d.now a s.table u true h.unique i in
      let rest = publish-rest a s' in
      rw (answers.0, answers.1)
        (record {
          unique = rw rest.0 unique;
          announced = ground (
            arith,
            rest.0,
            h.announced,
            grown,
            publish-announcement a s',
            announcements-append s.table (new_row d.now a ∷ []),
            append-nil (announcement a),
          );
          counted = ground (
            arith,
            rest.0,
            rest.1,
            h.counted,
            grown,
            length-append s.table (new_row d.now a ∷ []),
          );
        })

  handle_raw-IsAnnounced :
      (raw : Raw F) (d : Delivery F) (s : Service F)
      → IsPublished d
      → IsAnnounced s
      → IsAnnounced (handle_raw raw d s)
  unfolding handle_raw
  handle_raw-IsAnnounced (valid a) d s answers h = stored-IsAnnounced a d s _ answers h refl
  handle_raw-IsAnnounced invalid d s answers h = h
  handle_raw-IsAnnounced bad_unicode d s answers h = record {
    unique = h.unique;
    announced = h.announced;
    counted = h.counted;
  }

  consume-IsAnnounced :
      (ds : List (Delivery F)) (s : Service F)
      → All IsPublished ds
      → IsAnnounced s
      → IsAnnounced (consume ds s)
  unfolding consume handle
  consume-IsAnnounced [] s answers h = h
  consume-IsAnnounced (d ∷ ds) s answers h = elim (Bool-cases s.running) [
    | inl on ↦ rw on (
        consume-IsAnnounced ds _ answers.1 (
          handle_raw-IsAnnounced d.raw d _ answers.0
            (record { unique = h.unique; announced = h.announced; counted = h.counted })))
    | inr off ↦ rw off (record { unique = h.unique; announced = h.announced; counted = h.counted })
  ]

  -- Whatever records arrive, replayed or not, and while Redis takes every publication: the table has no
  -- two alerts with one id, what was published is, in the order of the table, each stored alert once to
  -- its area's channel and, if its severity is high, once to the global channel, and nothing else; and
  -- the counter of persisted alerts is the number of rows.
  pub consume-IsAnnounced_from_start :
      (ds : List (Delivery F)) → All IsPublished ds → IsAnnounced (consume ds new_service)
  consume-IsAnnounced_from_start ds answers =
      consume-IsAnnounced ds new_service answers
        (record { unique = tt; announced = refl; counted = refl })
