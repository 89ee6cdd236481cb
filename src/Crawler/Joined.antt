-- ===== src/Crawler/Joined.antt =====
-- How `CrawlerService::run` stands, by how its tasks stand.
use mathlib.Core.Bool.{false≢true}
use reth_crawler.Prelude.{
  ◌≡◌, refl, sym, ap, ◌∙◌, inl, inr, Bool, true, false, ◌||◌, List, [], ◌∷◌, ◌++◌, map, ok, any,
  Bool-cases, arith,
}
use reth_crawler.Text.{Text}
use reth_crawler.Handshake.{Reth}
use reth_crawler.Tasks.{Future, Task, running, panicked, returned, is_running, is_panicked, Join}
use reth_crawler.Crawler.{Nodes}
use reth_crawler.Crawler.Service.{UpdateListener, CrawlerService, ListenerTasks, joined, run}

any-append {ℓ} :
    {A : Type ℓ} (test : A → Bool) (xs ys : List A)
    → any test (xs ++ ys) ≡ (any test xs || any test ys)
any-append test [] ys = refl
any-append test (x ∷ xs) ys = ground (arith, any-append test xs ys)

any_four {ℓ} :
    {A : Type ℓ} (test : A → Bool) (xs ys zs : List A) (w : A)
    → any test (xs ++ (ys ++ (zs ++ (w ∷ []))))
      ≡ (any test xs || any test ys || any test zs || test w)
any_four test xs ys zs w = ground (
  arith,
  any-append test xs (ys ++ (zs ++ (w ∷ []))),
  any-append test ys (zs ++ (w ∷ [])),
  any-append test zs (w ∷ []),
)

-- Futures none of which runs or has panicked have returned.
all_returned_of {ℓ} :
    {A : Type ℓ} (fs : List (Future A))
    → any is_panicked fs ≡ false
    → any is_running fs ≡ false
    → (results : List A) × (fs ≡ map returned results)
all_returned_of [] fine still = ([], refl)
all_returned_of (running ∷ fs) fine still = absurd (false≢true (sym still))
all_returned_of (panicked ∷ fs) fine still = absurd (false≢true (sym fine))
all_returned_of (returned r ∷ fs) fine still =
    let (rest, same) = all_returned_of fs fine still in (r ∷ rest, ap (◌∷◌ (returned r)) same)

-- How `join_all` stands, by how its futures stand.
module _ (j : Join) {A : Type 0} (fs : List (Future A)) where
  join_all-is_panicked : is_panicked (j.join_all fs) ≡ any is_panicked fs
  join_all-is_panicked = elim (Bool-cases (any is_panicked fs)) [
    | inl one ↦ ap is_panicked (j.all_panic fs one) ∙ sym one
    | inr fine ↦ elim (Bool-cases (any is_running fs)) [
      | inl some_running ↦ ap is_panicked (j.all_wait fs fine some_running) ∙ sym fine
      | inr still ↦
          let (results, same) = all_returned_of fs fine still in
          ap (λ l. is_panicked (j.join_all l)) same
          ∙ ap is_panicked (j.all_return results)
          ∙ sym fine
    ]
  ]

  join_all-is_running : any is_panicked fs ≡ false → is_running (j.join_all fs) ≡ any is_running fs
  join_all-is_running fine = elim (Bool-cases (any is_running fs)) [
    | inl some_running ↦ ap is_running (j.all_wait fs fine some_running) ∙ sym some_running
    | inr still ↦
        let (results, same) = all_returned_of fs fine still in
        ap (λ l. is_running (j.join_all l)) same ∙ ap is_running (j.all_return results) ∙ sym still
  ]

returned_of {ℓ} :
    {A : Type ℓ} (f : Future A)
    → is_panicked f ≡ false
    → is_running f ≡ false
    → (r : A) × (f ≡ returned r)
returned_of running fine still = absurd (false≢true (sym still))
returned_of panicked fine still = absurd (false≢true (sym fine))
returned_of (returned r) fine still = (r, refl)

-- of `a || b || c || d`
none_of_four :
    (a b c d : Bool)
    → (a || b || c || d) ≡ false
    → (a ≡ false) × (b ≡ false) × (c ≡ false) × (d ≡ false)
none_of_four a b c d h = ground (arith, h)

module _ {PeerId : Type 0} {R : Reth PeerId} (N : Nodes R) (j : Join) (service : CrawlerService N)
    (tasks : UpdateListener N → ListenerTasks N) (state_task : Task Text) where
  -- All tasks of the service.
  abbrev pub all_tasks : List (Task Text)
  all_tasks =
      map (λ u. (tasks u).discv4) service.updates
      ++ (map (λ u. (tasks u).dnsdisc) service.updates
          ++ (map (λ u. (tasks u).network) service.updates ++ (state_task ∷ [])))

  -- How `run` stands.
  pub data Stands : Task Text → Type 0 where
    all_returned :
        any is_panicked all_tasks ≡ false
        → any is_running all_tasks ≡ false
        → Stands (returned (ok tt))
    one_panicked : any is_panicked all_tasks ≡ true → Stands panicked
    one_running :
        any is_panicked all_tasks ≡ false → any is_running all_tasks ≡ true → Stands running

  -- `run` panics as soon as a task of a listener or the block subscription panics. Otherwise it runs
  -- as long as one of them does, and then returns without an error, whatever they returned: an error
  -- ends neither the other tasks nor the crawler.
  pub run-Stands : Stands (run N j service tasks state_task)
  unfolding run joined
  run-Stands =
      let discs = map (λ u. (tasks u).discv4) service.updates in
      let dnss = map (λ u. (tasks u).dnsdisc) service.updates in
      let nets = map (λ u. (tasks u).network) service.updates in
      let a = j.join_all discs in
      let b = j.join_all dnss in
      let c = j.join_all nets in
      let panics : (is_panicked a || is_panicked b || is_panicked c || is_panicked state_task)
          ≡ any is_panicked all_tasks =
        simp (
          join_all-is_panicked j discs,
          join_all-is_panicked j dnss,
          join_all-is_panicked j nets,
          any_four is_panicked discs dnss nets state_task,
        ) in
      elim (Bool-cases (any is_panicked all_tasks)) [
        | inl one ↦ rw (j.panics a b c state_task (panics ∙ one), run, joined) (one_panicked one)
        | inr fine ↦
            let (fine1, fine2, fine3, fine4) = none_of_four _ _ _ _ (panics ∙ fine) in
            let runs : (is_running a || is_running b || is_running c || is_running state_task)
                ≡ any is_running all_tasks =
              simp (
                join_all-is_running j discs (sym (join_all-is_panicked j discs) ∙ fine1),
                join_all-is_running j dnss (sym (join_all-is_panicked j dnss) ∙ fine2),
                join_all-is_running j nets (sym (join_all-is_panicked j nets) ∙ fine3),
                any_four is_running discs dnss nets state_task,
              ) in
            elim (Bool-cases (any is_running all_tasks)) [
              | inl some_running ↦
                  rw (j.waits a b c state_task (panics ∙ fine) (runs ∙ some_running), run, joined)
                    (one_running fine some_running)
              | inr still ↦
                  let (still1, still2, still3, still4) = none_of_four _ _ _ _ (runs ∙ still) in
                  let (ra, at_a) = returned_of a fine1 still1 in
                  let (rb, at_b) = returned_of b fine2 still2 in
                  let (rc, at_c) = returned_of c fine3 still3 in
                  let (rd, at_d) = returned_of state_task fine4 still4 in
                  let all : j.join a b c state_task ≡ returned (ra, rb, rc, rd) =
                    ap (λ f. j.join f b c state_task) at_a
                    ∙ ap (λ f. j.join (returned ra) f c state_task) at_b
                    ∙ ap (λ f. j.join (returned ra) (returned rb) f state_task) at_c
                    ∙ ap (λ f. j.join (returned ra) (returned rb) (returned rc) f) at_d
                    ∙ j.returns ra rb rc rd in
                  rw (all, run, joined) (all_returned fine still)
            ]
      ]
