-- ===== src/Draft/SectionForm.antt =====
-- The editable model of the section dialog
-- (apps/control-center/src/storefront/components/SectionEditDialog.tsx): the values of its form, what its
-- schema accepts, and the section that Apply hands over.
use restaurant_engine.Prelude.{
  ℕ, Bool, true, not, ◌&&◌, ◌||◌, Option, none, some, List, [], ◌++◌, map, all, leb, length,
  keep_if, if◌then◌else◌,
}
use restaurant_engine.Prelude.Text.{Text, codes, text_eq, starts_with}
use restaurant_engine.Money.{trim, is_empty}
use restaurant_engine.Draft.Defs.{
  SectionType, hero, menu, story, contact, gallery, hours, SectionImageRef, Props, hero_props,
  menu_props, story_props, contact_props, gallery_props, hours_props, ConfigSection, or_default,
}

abbrev pub max_address_lines : ℕ
max_address_lines = 4

abbrev pub max_gallery_images : ℕ
max_gallery_images = 12

pub record SectionFormValues : Type 0 where
  pub enabled : Bool
  pub heading : Text
  pub subheading : Text
  pub primary_action : Text
  pub image : Option SectionImageRef
  pub intro : Text
  pub body : Text
  pub address_lines : List Text
  pub phone : Text
  pub email : Text
  pub images : List SectionImageRef
  pub show_open_now : Bool

abbrev pub is_filled : Text → Bool
is_filled value = not (is_empty (trim value))

abbrev pub is_primary_action : Text → Bool
is_primary_action action =
    text_eq action (codes "none")
    || text_eq action (codes "view_menu")
    || text_eq action (codes "order_online")

-- `schemaFor`: whether the resolver accepts the values.
unfoldable pub accepts : SectionType → SectionFormValues → Bool
accepts story v = is_primary_action v.primary_action && is_filled v.heading && is_filled v.body
accepts contact v =
    is_primary_action v.primary_action
    && is_filled v.heading
    && all is_filled v.address_lines
    && leb (length v.address_lines) max_address_lines
accepts gallery v = is_primary_action v.primary_action && leb (length v.images) max_gallery_images
accepts _ v = is_primary_action v.primary_action && is_filled v.heading

abbrev pub blank_values : Bool → SectionFormValues
blank_values enabled = record {
  enabled = enabled;
  heading = [];
  subheading = [];
  primary_action = codes "none";
  image = none;
  intro = [];
  body = [];
  address_lines = [];
  phone = [];
  email = [];
  images = [];
  show_open_now = true;
}

-- A section whose props are those of another type does not occur.
unfoldable pub form_values_from_section : ConfigSection → SectionFormValues
form_values_from_section section = filled section.props (blank_values section.enabled)
  where
    filled : Props → SectionFormValues → SectionFormValues
    filled (hero_props heading subheading image action) v = record v {
      heading = heading;
      subheading = or_default [] subheading;
      primary_action = action;
      image = image;
    }
    filled (menu_props heading intro) v = record v {
      heading = heading;
      intro = or_default [] intro;
    }
    filled (story_props heading body) v = record v { heading = heading; body = body }
    filled (contact_props heading lines phone email) v = record v {
      heading = heading;
      address_lines = lines;
      phone = or_default [] phone;
      email = or_default [] email;
    }
    filled (gallery_props heading images) v = record v {
      heading = or_default [] heading;
      images = images;
    }
    filled (hours_props heading intro show_open_now) v = record v {
      heading = heading;
      intro = or_default [] intro;
      show_open_now = show_open_now;
    }

unfoldable pub blank_to_null : Text → Option Text
blank_to_null value = if is_empty (trim value) then none else some (trim value)

unfoldable pub props_of : SectionType → SectionFormValues → Props
props_of hero v = hero_props (trim v.heading) (blank_to_null v.subheading) v.image v.primary_action
props_of menu v = menu_props (trim v.heading) (blank_to_null v.intro)
props_of story v = story_props (trim v.heading) (trim v.body)
props_of contact v =
    contact_props (trim v.heading) (map trim v.address_lines) (blank_to_null v.phone)
      (blank_to_null v.email)
props_of gallery v = gallery_props (blank_to_null v.heading) v.images
props_of hours v = hours_props (trim v.heading) (blank_to_null v.intro) v.show_open_now

unfoldable pub build_section : SectionType → Text → SectionFormValues → ConfigSection
build_section t id v = record {
  id = id;
  section_type = t;
  enabled = v.enabled;
  props = props_of t v;
}

-- `clearServerError`, on the fields that still carry a server error
unfoldable pub clear_server_error : Text → List Text → List Text
clear_server_error changed paths =
    keep_if
      (λ path. not (
        text_eq path changed
        || starts_with path (changed ++ codes ".")
        || starts_with changed (path ++ codes ".")))
      paths
