-- ===== src/Dao/Table/Frame.antt =====
-- Statements on one table and what holds of the rows of every table.
use vpc_workflow_demo.World.{World}
use vpc_workflow_demo.Models.{vpc, subnet, pccn, firewall_policy}
use vpc_workflow_demo.Prelude.{
  update_where, List, All, String, ◌≡◌, true, Bool, ◌∷◌, Bool-cases, [], inl, inr,
}
use vpc_workflow_demo.Models.{Kind, Row, Attrs}
use vpc_workflow_demo.Dao.Table.{table, update_row, has_id}

module _ {A : Type 0} (P Q : A → Type 0) where
  pub All-map : ((x : A) → P x → Q x) → (l : List A) → All P l → All Q l
  All-map f [] h = h
  All-map f (x ∷ xs) h = (f x h.0, All-map f xs h.1)

  All-update_hit :
      (p : A → Bool) (f : A → A)
      → ((x : A) → p x ≡ true → P x → Q (f x))
      → ((x : A) → P x → Q x)
      → (l : List A) → All P l
      → All Q (update_where p f l)
  unfolding update_where
  All-update_hit p f hit miss [] h = h
  All-update_hit p f hit miss (x ∷ xs) h = elim (Bool-cases (p x)) [
    | inl t ↦ rw t (hit x t h.0, All-update_hit p f hit miss xs h.1)
    | inr n ↦ rw n (miss x h.0, All-update_hit p f hit miss xs h.1)
  ]

module _ (P Q : (k : Kind) → Row (Attrs k) → Type 0)
    (miss : (k : Kind) (r : Row (Attrs k)) → P k r → Q k r) where
  -- An update of one table changes `P` to `Q` on the rows that it hits, and loses nothing elsewhere.
  pub All-update_row :
      (j : Kind) (id : String) (f : Row (Attrs j) → Row (Attrs j))
      → ((r : Row (Attrs j)) → has_id id r ≡ true → P j r → Q j (f r))
      → (w : World) → ((k : Kind) → All (P k) (table k w))
      → (k : Kind) → All (Q k) (table k (update_row j id f w))
  unfolding update_row
  All-update_row vpc id f hit w h vpc =
      All-update_hit (P vpc) (Q vpc) (has_id id) f hit (miss vpc) w.rows.vpcs (h vpc)
  All-update_row vpc id f hit w h subnet =
      All-map (P subnet) (Q subnet) (miss subnet) w.rows.subnets (h subnet)
  All-update_row vpc id f hit w h pccn = All-map (P pccn) (Q pccn) (miss pccn) w.rows.pccns (h pccn)
  All-update_row vpc id f hit w h firewall_policy =
      All-map (P firewall_policy) (Q firewall_policy) (miss firewall_policy) w.rows.policies
        (h firewall_policy)
  All-update_row subnet id f hit w h vpc = All-map (P vpc) (Q vpc) (miss vpc) w.rows.vpcs (h vpc)
  All-update_row subnet id f hit w h subnet =
      All-update_hit (P subnet) (Q subnet) (has_id id) f hit (miss subnet) w.rows.subnets (h subnet)
  All-update_row subnet id f hit w h pccn =
      All-map (P pccn) (Q pccn) (miss pccn) w.rows.pccns (h pccn)
  All-update_row subnet id f hit w h firewall_policy =
      All-map (P firewall_policy) (Q firewall_policy) (miss firewall_policy) w.rows.policies
        (h firewall_policy)
  All-update_row pccn id f hit w h vpc = All-map (P vpc) (Q vpc) (miss vpc) w.rows.vpcs (h vpc)
  All-update_row pccn id f hit w h subnet =
      All-map (P subnet) (Q subnet) (miss subnet) w.rows.subnets (h subnet)
  All-update_row pccn id f hit w h pccn =
      All-update_hit (P pccn) (Q pccn) (has_id id) f hit (miss pccn) w.rows.pccns (h pccn)
  All-update_row pccn id f hit w h firewall_policy =
      All-map (P firewall_policy) (Q firewall_policy) (miss firewall_policy) w.rows.policies
        (h firewall_policy)
  All-update_row firewall_policy id f hit w h vpc =
      All-map (P vpc) (Q vpc) (miss vpc) w.rows.vpcs (h vpc)
  All-update_row firewall_policy id f hit w h subnet =
      All-map (P subnet) (Q subnet) (miss subnet) w.rows.subnets (h subnet)
  All-update_row firewall_policy id f hit w h pccn =
      All-map (P pccn) (Q pccn) (miss pccn) w.rows.pccns (h pccn)
  All-update_row firewall_policy id f hit w h firewall_policy =
      All-update_hit (P firewall_policy) (Q firewall_policy) (has_id id) f hit
        (miss firewall_policy) w.rows.policies (h firewall_policy)
