-- ===== src/Dictionary.antt =====
-- The dictionaries of the package ucom.libs.common, which is not part of the repository: the ids
-- of interactions and events, the names of entities, and the tests on them that the services
-- call. They are a parameter; `IsLawful` states what the services rely on.
use ucom_backend.Prelude.{ℕ, ◌<◌, String, ◌≡◌, ◌≢◌, refl, Bool, true, false, arith, ◌==◌}
use ucom_backend.Prelude.{if◌then◌else◌}
use text.Mathlib.TextEquality.{eq_iff}

pub record Dictionaries : Type 0 where
  -- InteractionTypesDictionary
  pub follow_id : ℕ
  pub unfollow_id : ℕ
  pub upvote_id : ℕ
  pub downvote_id : ℕ
  pub trust_id : ℕ
  pub untrust_id : ℕ
  pub is_opposite_activity_required : ℕ → Bool
  pub get_opposite_follow_activity_type_id : ℕ → ℕ
  -- EventsIdsDictionary
  pub user_follows_you : ℕ
  pub user_unfollows_you : ℕ
  pub does_user_follow_other_user : ℕ → Bool
  pub does_user_unfollow_other_user : ℕ → Bool
  pub user_trusts_you : ℕ
  pub user_untrusts_you : ℕ
  pub is_user_trusts_you : ℕ → Bool
  pub is_user_untrusts_you : ℕ → Bool
  pub user_upvotes_post_of_org : ℕ
  pub user_upvotes_post_of_other_user : ℕ
  pub user_downvotes_post_of_org : ℕ
  pub user_downvotes_post_of_other_user : ℕ
  pub user_upvotes_comment_of_org : ℕ
  pub user_upvotes_comment_of_other_user : ℕ
  pub user_downvotes_comment_of_org : ℕ
  pub user_downvotes_comment_of_other_user : ℕ
  -- EntityNames
  pub users : String
  pub organizations : String
  pub posts : String
  pub comments : String
  -- ContentTypesDictionary
  pub type_media_post : ℕ
  pub type_direct_post : ℕ
  pub type_repost : ℕ

-- An unfollow, and nothing else, needs the opposite activity before it; an event is
-- recognised by its own test and not by that of the opposite event.
pub record IsLawful (d : Dictionaries) : Type 0 where
  pub follow_ne_unfollow : d.follow_id ≢ d.unfollow_id
  pub follow_id_pos : 0 < d.follow_id
  pub unfollow_id_pos : 0 < d.unfollow_id
  pub follow_needs_none : d.is_opposite_activity_required d.follow_id ≡ false
  pub unfollow_needs_opposite : d.is_opposite_activity_required d.unfollow_id ≡ true
  pub opposite_of_unfollow : d.get_opposite_follow_activity_type_id d.unfollow_id ≡ d.follow_id
  pub follow_event : d.does_user_follow_other_user d.user_follows_you ≡ true
  pub unfollow_event : d.does_user_unfollow_other_user d.user_unfollows_you ≡ true
  pub unfollow_event_is_no_follow : d.does_user_follow_other_user d.user_unfollows_you ≡ false
  pub trust_ne_untrust : d.trust_id ≢ d.untrust_id
  pub trust_event : d.is_user_trusts_you d.user_trusts_you ≡ true
  pub untrust_event : d.is_user_untrusts_you d.user_untrusts_you ≡ true
  pub untrust_event_is_no_trust : d.is_user_trusts_you d.user_untrusts_you ≡ false
  pub upvote_ne_downvote : d.upvote_id ≢ d.downvote_id
  pub posts_ne_comments : d.posts ≢ d.comments

-- Values that meet these demands.
abbrev pub sample_dictionaries : Dictionaries
sample_dictionaries = record {
  follow_id = 1;
  unfollow_id = 5;
  upvote_id = 2;
  downvote_id = 4;
  trust_id = 11;
  untrust_id = 12;
  is_opposite_activity_required = λ t. t == 5;
  get_opposite_follow_activity_type_id = λ t. if t == 1 then 5 else 1;
  user_follows_you = 13;
  user_unfollows_you = 31;
  does_user_follow_other_user = λ e. e == 13;
  does_user_unfollow_other_user = λ e. e == 31;
  user_trusts_you = 120;
  user_untrusts_you = 125;
  is_user_trusts_you = λ e. e == 120;
  is_user_untrusts_you = λ e. e == 125;
  user_upvotes_post_of_org = 21;
  user_upvotes_post_of_other_user = 22;
  user_downvotes_post_of_org = 23;
  user_downvotes_post_of_other_user = 24;
  user_upvotes_comment_of_org = 25;
  user_upvotes_comment_of_other_user = 26;
  user_downvotes_comment_of_org = 27;
  user_downvotes_comment_of_other_user = 28;
  users = "users     ";
  organizations = "org       ";
  posts = "posts     ";
  comments = "comments  ";
  type_media_post = 1;
  type_direct_post = 10;
  type_repost = 11;
}

pub sample_dictionaries-IsLawful : IsLawful sample_dictionaries
sample_dictionaries-IsLawful = record {
  follow_ne_unfollow = omega arith;
  follow_id_pos = omega arith;
  unfollow_id_pos = omega arith;
  follow_needs_none = refl;
  unfollow_needs_opposite = refl;
  opposite_of_unfollow = refl;
  follow_event = refl;
  unfollow_event = refl;
  unfollow_event_is_no_follow = refl;
  trust_ne_untrust = omega arith;
  trust_event = refl;
  untrust_event = refl;
  untrust_event_is_no_trust = refl;
  upvote_ne_downvote = omega arith;
  posts_ne_comments = ground (arith, eq_iff "posts     " "comments  ");
}
