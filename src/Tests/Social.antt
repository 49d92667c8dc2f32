-- ===== src/Tests/Social.antt =====
-- Follows and trust on the empty tables: users 1 and 2, who have names.
use text.Mathlib.TextEquality.{eq_iff}
use ucom_backend.Prelude.{
  ◌==◌, ℕ, String, ◌≡◌, ◌≢◌, ◌↔◌, inl, refl, true, false, Option, some, [], arith,
}
use ucom_backend.Prelude.Action.{ok, err, bad_request}
use ucom_backend.Dictionary.{sample_dictionaries as d, sample_dictionaries-IsLawful as lawful}
use ucom_backend.Social.State.{Social, group_users_team_invitation, create_new_activity}
use ucom_backend.Social.Follow.{
  user_follows_another_user, user_unfollows_user, user_follow_or_unfollow_user,
  process_user_follows_or_unfollows_user, check_preconditions as check_follow,
}
use ucom_backend.Social.Follow.Laws as FollowLaws
use ucom_backend.Social.Follow.Steps as Steps
use ucom_backend.Social.Follow.Requests as F
use ucom_backend.Social.Trust.{
  Body, trust_or_untrust_user, process_and_get_new_activity, check_preconditions as check_trust,
}
use ucom_backend.Social.Trust.Laws as T
use ucom_backend.Social.Organizations.{
  Events, AreLawful, org_transaction, user_follows_organization, user_unfollows_organization,
}
use ucom_backend.Social.Organizations.Laws as Orgs
use ucom_backend.Social.Activities.{Contents, process_users_board_invitation}
use ucom_backend.Social.Index.{insert_row}

abbrev empty : Social
empty = record { activities = []; follows = []; trusts = []; auto_updates = []; jobs = [] }

abbrev signed : String
signed = "signed"

abbrev body : Body
body = record { signed_transaction = "signed"; blockchain_id = "id" }

abbrev one : ℕ
one = 1

abbrev two : ℕ
two = 2

abbrev name : ℕ → Option String
name id = some "jane"

signed-ne : signed ≢ ""
signed-ne = ground (arith, eq_iff "signed" "")

follows_test : (user_follows_another_user d 1 2 signed empty).0 ≡ ok tt
unfolding user_follows_another_user user_follow_or_unfollow_user check_follow insert_row
    process_user_follows_or_unfollows_user
follows_test = ground (
  arith,
  F.user_follows_another_user_succeeds d lawful 1 2 signed empty (λ u v. refl) (omega arith)
      (omega arith) signed-ne refl,
)

follow_self_test :
    user_follow_or_unfollow_user d 1 1 1 signed empty
    ≡ (err (bad_request "It is not possible to follow yourself"), empty)
unfolding user_follow_or_unfollow_user check_follow
follow_self_test = refl

Reach-IsConsistent_example :
    FollowLaws.IsConsistent d (process_user_follows_or_unfollows_user d 1 signed 1 2 empty).1
Reach-IsConsistent_example =
    Steps.Reach-IsConsistent d lawful (λ u v. refl)
      (Steps.next Steps.here (Steps.commit 1 1 2 signed empty (inl refl)))

user_follows_another_user_iff_example :
    ((user_follows_another_user d 1 2 signed empty).0 ≡ ok tt)
    ↔ ((one ≢ two) × (two ≢ 0) × (signed ≢ "") × (FollowLaws.is_following d 1 2 empty ≡ false))
user_follows_another_user_iff_example =
    F.user_follows_another_user_iff d lawful 1 2 signed empty (λ u v. refl)

user_unfollows_user_iff_example :
    ((user_unfollows_user d 1 2 signed empty).0 ≡ ok tt)
    ↔ ((one ≢ two) × (signed ≢ "") × (FollowLaws.is_following d 1 2 empty ≡ true))
user_unfollows_user_iff_example = F.user_unfollows_user_iff d lawful 1 2 signed empty (λ u v. refl)

follow_then_unfollow_example :
    ((user_unfollows_user d 1 2 signed (user_follows_another_user d 1 2 signed empty).1).0 ≡ ok tt)
    × ((user_unfollows_user d 1 2 signed (user_follows_another_user d 1 2 signed empty).1).1.follows
        ≡ [])
follow_then_unfollow_example =
    F.follow_then_unfollow d lawful 1 2 signed signed empty (λ u v. refl) follows_test signed-ne

trust_self_test :
    trust_or_untrust_user d name 1 1 body 11 120 empty
    ≡ (err (bad_request "It is not possible to trust or untrust yourself"), empty)
unfolding trust_or_untrust_user check_trust
trust_self_test = refl

trust-IsConsistent_example :
    T.IsConsistent d (process_and_get_new_activity d 1 2 120 11 body empty).1
trust-IsConsistent_example =
    T.process_and_get_new_activity-IsConsistent d lawful 11 120 1 2 body empty (inl (refl, refl))
      (λ u v. refl)

abbrev contents : Contents
contents = record {
  blockchain_nodes = "blockchain";
  type_organization = 4;
  type_comment = 3;
  org_team_invitation = 30;
  org_users_team_invitation = 20;
  user_creates_organization = 200;
  user_updates_organization = 201;
  user_creates_profile = 202;
  user_updates_profile = 203;
  user_has_mentioned_you_in_post = 80;
  user_has_mentioned_you_in_comment = 90;
}

process_users_board_invitation_test :
    (process_users_board_invitation d contents 1 2 9 empty).1
    ≡ (create_new_activity
        (record {
          activity_type_id = contents.org_team_invitation;
          activity_group_id = group_users_team_invitation;
          user_id_from = 1;
          entity_id_to = 2;
          entity_name = d.users;
          signed_transaction = "";
          event_id = contents.org_users_team_invitation;
          entity_id_on = some 9;
          entity_name_on = some d.organizations;
        })
        empty).1
unfolding process_users_board_invitation
process_users_board_invitation_test = refl

abbrev events : Events
events = record {
  user_follows_org = 60;
  user_unfollows_org = 61;
  does_user_follow_org = λ e. e == 60;
  does_user_unfollow_org = λ e. e == 61;
}

events-AreLawful : AreLawful events
events-AreLawful = record {
  follow_org = refl;
  unfollow_org = refl;
  unfollow_org_is_no_follow = refl;
}

org_transaction-IsOrgConsistent_example :
    Orgs.IsOrgConsistent d events (org_transaction d events 1 signed 1 9 empty).1
org_transaction-IsOrgConsistent_example =
    Orgs.org_transaction-IsOrgConsistent d lawful events events-AreLawful 1 1 9 signed empty
      (inl refl) (λ u v. refl)

user_follows_and_unfollows_organization_iff_example :
    (((user_follows_organization d events 1 two signed empty).0 ≡ ok tt)
      ↔ ((two ≢ 0) × (signed ≢ "") × (Orgs.is_following_org d events 1 two empty ≡ false)))
    × (((user_unfollows_organization d events 1 two signed empty).0 ≡ ok tt)
        ↔ ((signed ≢ "") × (Orgs.is_following_org d events 1 two empty ≡ true)))
user_follows_and_unfollows_organization_iff_example =
    Orgs.user_follows_and_unfollows_organization_iff d lawful events events-AreLawful 1 two signed
      empty (λ u v. refl)

names-ne : d.organizations ≢ d.users
names-ne = ground (arith, eq_iff "org       " "users     ")

org_transaction-IsConsistent_example :
    FollowLaws.IsConsistent d (org_transaction d events 1 signed 1 9 empty).1
org_transaction-IsConsistent_example =
    Orgs.org_transaction-IsConsistent d lawful events events-AreLawful 1 1 9 signed empty names-ne
      (inl refl) (λ u v. refl)
