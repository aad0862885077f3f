-- ===== src/Accounts/Views.antt =====
-- services/views.py: the built-in and the saved views, as filters of accounts. The names and the
-- descriptions of the built-in views are text for people and are left out. A `sort_order` is its
-- distance from -1_000_000, the least that the schema admits. The filters are stored as JSON: writing
-- and reading their fields is pydantic's, the parameter `FilterJson`.
use smart_email_manager.Prelude.{
  ℕ, ◌-◌, String, Bool, true, false, not, ◌&&◌, ◌||◌, Option, none, some, List, [], ◌∷◌, ◌++◌, ◌==◌,
  ltb, if◌then◌else◌, is_some, or_else, str_eq, find_where, select_where, update_where, order_rows,
  strip,
}
use smart_email_manager.Problem.{Result, ok, err, problem, crash, ◌>>=◌}
use smart_email_manager.Enums.{
  LifecycleStatus, AuthorizationStatus, TokenStatus, MailHealthStatus, ProxyHealthStatus,
}
use smart_email_manager.Accounts.Pages.{AccountViewFilters}

pub record FilterJson : Type 0 where
  -- filters.model_dump(mode="json", exclude_none=True), as it is stored
  pub dump : AccountViewFilters → String
  -- The fields of a stored object, with the bounds of each; `none` is a ValidationError.
  pub read_fields : String → Option AccountViewFilters

pub record SavedAccountView : Type 0 where
  pub id : ℕ
  pub name : String
  pub filters : String
  pub sort_order : ℕ
  pub created_at : ℕ

pub record SavedAccountViewCreate : Type 0 where
  pub name : String
  pub filters : AccountViewFilters
  pub sort_order : ℕ

pub record SavedAccountViewUpdate : Type 0 where
  pub name : Option String
  pub filters : Option AccountViewFilters
  pub sort_order : Option ℕ

-- AccountViewFilters()
abbrev pub no_filters : AccountViewFilters
no_filters = record {
  lifecycle_statuses = [];
  authorization_statuses = [];
  token_statuses = [];
  mail_health_statuses = [];
  proxy_health_statuses = [];
  group_id = none;
  ungrouped = false;
  untagged = false;
  min_consecutive_failures = none;
  last_mail_success_before = none;
  query = none;
}

-- timedelta(days=30), in seconds
abbrev pub thirty_days : ℕ
thirty_days = 2592000

-- The keys and the filters, at the time `wall`.
unfoldable pub builtin_account_views : ℕ → List (String × AccountViewFilters)
builtin_account_views wall =
    (
      "pending_verification",
      record no_filters {
        authorization_statuses = AuthorizationStatus.unknown ∷ AuthorizationStatus.pending ∷ [];
      },
    )
    ∷ (
      "healthy",
      record no_filters {
        lifecycle_statuses = LifecycleStatus.active ∷ [];
        authorization_statuses = AuthorizationStatus.valid ∷ [];
        token_statuses = TokenStatus.success ∷ [];
        mail_health_statuses = MailHealthStatus.healthy ∷ [];
      },
    )
    ∷ (
      "reauthorization",
      record no_filters {
        authorization_statuses =
            AuthorizationStatus.invalid ∷ AuthorizationStatus.reauthorization_required ∷ [];
      },
    )
    ∷ (
      "token_failed",
      record no_filters { token_statuses = TokenStatus.failed ∷ TokenStatus.stale ∷ [] },
    )
    ∷ ("proxy_failed", record no_filters { proxy_health_statuses = ProxyHealthStatus.failed ∷ [] })
    ∷ ("consecutive_failures", record no_filters { min_consecutive_failures = some 2 })
    ∷ ("stale_mail", record no_filters { last_mail_success_before = some (wall - thirty_days) })
    ∷ (
      "inactive",
      record no_filters {
        lifecycle_statuses = LifecycleStatus.inactive ∷ LifecycleStatus.archived ∷ [];
      },
    )
    ∷ ("ungrouped", record no_filters { ungrouped = true })
    ∷ ("untagged", record no_filters { untagged = true })
    ∷ []

-- ORDER BY sort_order, created_at, id
unfoldable pub listed_before : SavedAccountView → SavedAccountView → Bool
listed_before a b =
    ltb a.sort_order b.sort_order
    || a.sort_order == b.sort_order
      && (ltb a.created_at b.created_at || a.created_at == b.created_at && ltb a.id b.id)

unfoldable pub list_saved_account_views : List SavedAccountView → List SavedAccountView
list_saved_account_views views = order_rows listed_before views

unfoldable pub find_view : ℕ → List SavedAccountView → Option SavedAccountView
find_view view_id views = find_where (λ v. v.id == view_id) views

unfoldable pub get_saved_account_view_or_404 : ℕ → List SavedAccountView → Result SavedAccountView
get_saved_account_view_or_404 view_id views = elim (find_view view_id views) [
  | none ↦ err (problem 404 "SAVED_VIEW_NOT_FOUND")
  | some view ↦ ok view
]

-- The unique constraint on the name, for a row with the given id.
unfoldable pub view_name_is_taken : ℕ → String → List SavedAccountView → Bool
view_name_is_taken view_id name views =
    is_some (find_where (λ v. not (v.id == view_id) && str_eq v.name name) views)

module _ (json : FilterJson) where
  unfoldable pub create_saved_account_view :
      ℕ
      → ℕ
      → SavedAccountViewCreate
      → List SavedAccountView
      → Result (List SavedAccountView × SavedAccountView)
  create_saved_account_view id now payload views =
      let view = new_view in
      if view_name_is_taken id (strip payload.name) views
      then err (problem 409 "SAVED_VIEW_NAME_CONFLICT")
      else ok (views ++ view ∷ [], view)
    where
      new_view : SavedAccountView
      new_view = record {
        id = id;
        name = strip payload.name;
        filters = json.dump payload.filters;
        sort_order = payload.sort_order;
        created_at = now;
      }

  abbrev pub updated_view : SavedAccountViewUpdate → SavedAccountView → SavedAccountView
  updated_view payload view =
      let name : String = elim payload.name [ none ↦ view.name | some entered ↦ strip entered ] in
      let filters : String = elim payload.filters [
        | none ↦ view.filters
        | some entered ↦ json.dump entered
      ] in
      record view {
        name = name;
        filters = filters;
        sort_order = or_else payload.sort_order view.sort_order;
      }

  unfoldable pub update_saved_account_view :
      ℕ
      → SavedAccountViewUpdate
      → List SavedAccountView
      → Result (List SavedAccountView × SavedAccountView)
  update_saved_account_view view_id payload views = do
    view ← get_saved_account_view_or_404 view_id views
    let view' = updated_view payload view
    if view_name_is_taken view.id view'.name views
        then err (problem 409 "SAVED_VIEW_NAME_CONFLICT")
        else ok (update_where (λ v. v.id == view.id) (λ _. view') views, view')

unfoldable pub delete_saved_account_view :
    ℕ → List SavedAccountView → Result (List SavedAccountView)
delete_saved_account_view view_id views = do
  view ← get_saved_account_view_or_404 view_id views
  ok (select_where (λ v. not (v.id == view.id)) views)

-- A text that is given and not empty.
abbrev pub given_text : Option String → Option String
given_text none = none
given_text (some key) = if str_eq key "" then none else some key

unfoldable pub builtin_filters : ℕ → String → Result (Option AccountViewFilters)
builtin_filters wall key = elim (find_where (λ v. str_eq v.0 key) (builtin_account_views wall)) [
  | none ↦ err (problem 404 "BUILTIN_VIEW_NOT_FOUND")
  | some view ↦ ok (some view.1)
]

-- The validator of the schema.
unfoldable pub group_filter_is_unambiguous : AccountViewFilters → Bool
group_filter_is_unambiguous filters = not (is_some filters.group_id && filters.ungrouped)

module _ (json : FilterJson) where
  -- AccountViewFilters.model_validate
  unfoldable pub model_validate : String → Result AccountViewFilters
  model_validate stored = elim (json.read_fields stored) [
    | none ↦ err (crash "ValidationError")
    | some filters ↦
        if group_filter_is_unambiguous filters then ok filters else err (crash "ValidationError")
  ]

  unfoldable pub saved_filters : ℕ → List SavedAccountView → Result (Option AccountViewFilters)
  saved_filters view_id views = do
    view ← get_saved_account_view_or_404 view_id views
    filters ← model_validate view.filters
    ok (some filters)

  unfoldable pub resolve_account_view_filters :
      ℕ → Option String → Option ℕ → List SavedAccountView → Result (Option AccountViewFilters)
  resolve_account_view_filters wall builtin_key saved_view_id views =
      resolve (given_text builtin_key) saved_view_id
    where
      resolve : Option String → Option ℕ → Result (Option AccountViewFilters)
      resolve (some key) (some view_id) = err (problem 400 "ACCOUNT_VIEW_AMBIGUOUS")
      resolve (some key) none = builtin_filters wall key
      resolve none (some view_id) = saved_filters view_id views
      resolve none none = ok none
