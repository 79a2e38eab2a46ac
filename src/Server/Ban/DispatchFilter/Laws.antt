-- ===== src/Server/Ban/DispatchFilter/Laws.antt =====
-- What FilterDispatchList lets through.
use super_duper_bassoon.Common.{
  String, Bool, true, false, List, [], ◌∷◌, ◌++◌, Option, some, ◌≡◌, refl, arith, ◌∙◌, ap, ◌⊎◌, inl,
  inr, Bool-cases, Option-cases, ◌||◌, append-nil, append_assoc,
}
use super_duper_bassoon.Common.Fault.{Fault, Result, ok, err}
use super_duper_bassoon.Common.Time.{Time}
use super_duper_bassoon.Server.Ban.Service.{BanState, is_banned}
use super_duper_bassoon.Server.Ban.Cache.{Synced, any_active, is_banned_lem}
use super_duper_bassoon.Server.Ban.DispatchFilter.{filter_loop, filter_dispatch_list, place}

-- `ids` is the list of the clients let through and the list of the banned ones, woven together.
pub data Parted (banned : String → Bool) : List String → List String → List String → Type 0 where
  done : Parted banned [] [] []
  let_by :
      {id : String} {ids allowed filtered : List String}
      → banned id ≡ false
      → Parted banned ids allowed filtered
      → Parted banned (id ∷ ids) (id ∷ allowed) filtered
  kept_back :
      {id : String} {ids allowed filtered : List String}
      → banned id ≡ true
      → Parted banned ids allowed filtered
      → Parted banned (id ∷ ids) allowed (id ∷ filtered)

module _ (db : String → Option Fault) (now : Time) (workflow_type : String) (s : BanState) where
  -- The bans in force, as the table of `s` has them.
  unfoldable pub in_table : String → Bool
  in_table id = any_active id workflow_type s.table.rows || any_active id "" s.table.rows

  abbrev EndsWell :
      List String → List String × List String → Result (List String × List String) → Type 0
  EndsWell ids start r =
      ((a : List String) × (f : List String) × (r ≡ ok (start.0 ++ a, start.1 ++ f))
        × Parted in_table ids a f)
      ⊎ ((e : Fault) × (id : String) × (r ≡ err e) × (db id ≡ some e))

  answer :
      (id : String)
      → Synced s
      → (is_banned (db id) now id workflow_type s ≡ ok (in_table id))
        ⊎ ((e : Fault) × (is_banned (db id) now id workflow_type s ≡ err e) × (db id ≡ some e))
  unfolding in_table
  answer id h = elim (Option-cases (db id)) [
    | inl q ↦ inl (rw q (is_banned_lem now id workflow_type s h).0)
    | inr (e, q) ↦ elim (Bool-cases (in_table id)) [
      | inl hit ↦ inl (rw q ((is_banned_lem now id workflow_type s h).1 e ∙ ground (arith, hit)))
      | inr miss ↦
          inr (e, rw q ((is_banned_lem now id workflow_type s h).1 e ∙ ground (arith, miss)), q)
    ]
  ]

  put :
      (b : Bool) (id : String) (ids : List String) (start : List String × List String)
      (r : Result (List String × List String))
      → in_table id ≡ b
      → EndsWell ids (place b id start) r
      → EndsWell (id ∷ ids) start r
  put b id ids start r q (inr h) = inr h
  put true id ids (al, fi) r q (inl (a, f, e, p)) =
      inl (a, id ∷ f, e ∙ ap (λ l. ok (al ++ a, l)) (append_assoc fi (id ∷ []) f), kept_back q p)
  put false id ids (al, fi) r q (inl (a, f, e, p)) =
      inl (id ∷ a, f, e ∙ ap (λ l. ok (l, fi ++ f)) (append_assoc al (id ∷ []) a), let_by q p)

  loop_lem :
      (ids : List String) (start : List String × List String)
      → Synced s
      → EndsWell ids start (filter_loop db now workflow_type s ids start)
  unfolding filter_loop
  loop_lem [] (al, fi) h = inl ([], [], rw (append-nil al, append-nil fi) refl, done)
  loop_lem (id ∷ ids) start h = elim (answer id h) [
    | inl q ↦
        rw (filter_loop, q)
          (put (in_table id) id ids start _ refl (loop_lem ids (place (in_table id) id start) h))
    | inr (e, q, d) ↦ inr (e, id, rw (filter_loop, q) refl, d)
  ]

  -- While the cache and the table of bans agree, a list of clients is parted, each part in the
  -- order of the list, into those that no active ban holds from the workflow type, which are
  -- let through, and those that one does; it fails only with an error of the database.
  pub filter_dispatch_list-Parted :
      (ids : List String)
      → Synced s
      → ((a : List String) × (f : List String) × (filter_dispatch_list db now workflow_type s ids
            ≡ ok (a, f))
          × Parted in_table ids a f)
        ⊎ ((e : Fault) × (id : String) × (filter_dispatch_list db now workflow_type s ids ≡ err e)
            × (db id ≡ some e))
  unfolding filter_dispatch_list
  filter_dispatch_list-Parted ids h = loop_lem ids ([], []) h
