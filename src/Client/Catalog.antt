-- ===== src/Client/Catalog.antt =====
-- Categories and items (packages/api-client/src/catalog.ts).
use restaurant_engine.Prelude.{Option, none, some, [], ◌∷◌}
use restaurant_engine.Prelude.Text.{Text, codes}
use restaurant_engine.Js.{Json}
use restaurant_engine.Client.Defs.{get, post, patch, delete_, ApiRequest, path_param, csrf}

pub data CatalogCall : Type 0 where
  get_menu : Text → CatalogCall
  create_category : Text → Json → Text → CatalogCall
  update_category : Text → Text → Json → Text → CatalogCall
  delete_category : Text → Text → Text → CatalogCall
  reorder_categories : Text → Json → Text → CatalogCall
  create_item : Text → Text → Json → Text → CatalogCall
  get_item : Text → Text → CatalogCall
  update_item : Text → Text → Json → Text → CatalogCall
  delete_item : Text → Text → Text → CatalogCall
  reorder_items : Text → Json → Text → CatalogCall

unfoldable pub catalog_request : CatalogCall → ApiRequest
catalog_request (get_menu business_id) = record {
  method = get;
  template = codes "/api/v1/businesses/{business_id}/catalog/menu";
  path_params = path_param "business_id" business_id ∷ [];
  query = [];
  body = none;
  headers = [];
}
catalog_request (create_category business_id body csrf_token) = record {
  method = post;
  template = codes "/api/v1/businesses/{business_id}/catalog/categories";
  path_params = path_param "business_id" business_id ∷ [];
  query = [];
  body = some body;
  headers = csrf csrf_token;
}
catalog_request (update_category business_id category_id body csrf_token) = record {
  method = patch;
  template = codes "/api/v1/businesses/{business_id}/catalog/categories/{category_id}";
  path_params = path_param "business_id" business_id ∷ path_param "category_id" category_id ∷ [];
  query = [];
  body = some body;
  headers = csrf csrf_token;
}
catalog_request (delete_category business_id category_id csrf_token) = record {
  method = delete_;
  template = codes "/api/v1/businesses/{business_id}/catalog/categories/{category_id}";
  path_params = path_param "business_id" business_id ∷ path_param "category_id" category_id ∷ [];
  query = [];
  body = none;
  headers = csrf csrf_token;
}
catalog_request (reorder_categories business_id body csrf_token) = record {
  method = post;
  template = codes "/api/v1/businesses/{business_id}/catalog/categories/reorder";
  path_params = path_param "business_id" business_id ∷ [];
  query = [];
  body = some body;
  headers = csrf csrf_token;
}
catalog_request (create_item business_id category_id body csrf_token) = record {
  method = post;
  template = codes "/api/v1/businesses/{business_id}/catalog/categories/{category_id}/items";
  path_params = path_param "business_id" business_id ∷ path_param "category_id" category_id ∷ [];
  query = [];
  body = some body;
  headers = csrf csrf_token;
}
catalog_request (get_item business_id item_id) = record {
  method = get;
  template = codes "/api/v1/businesses/{business_id}/catalog/items/{item_id}";
  path_params = path_param "business_id" business_id ∷ path_param "item_id" item_id ∷ [];
  query = [];
  body = none;
  headers = [];
}
catalog_request (update_item business_id item_id body csrf_token) = record {
  method = patch;
  template = codes "/api/v1/businesses/{business_id}/catalog/items/{item_id}";
  path_params = path_param "business_id" business_id ∷ path_param "item_id" item_id ∷ [];
  query = [];
  body = some body;
  headers = csrf csrf_token;
}
catalog_request (delete_item business_id item_id csrf_token) = record {
  method = delete_;
  template = codes "/api/v1/businesses/{business_id}/catalog/items/{item_id}";
  path_params = path_param "business_id" business_id ∷ path_param "item_id" item_id ∷ [];
  query = [];
  body = none;
  headers = csrf csrf_token;
}
catalog_request (reorder_items business_id body csrf_token) = record {
  method = post;
  template = codes "/api/v1/businesses/{business_id}/catalog/items/reorder";
  path_params = path_param "business_id" business_id ∷ [];
  query = [];
  body = some body;
  headers = csrf csrf_token;
}

-- The token that the caller passes, and the business that the call names.
abbrev pub catalog_token : CatalogCall → Option Text
catalog_token (create_category business_id body csrf_token) = some csrf_token
catalog_token (update_category business_id category_id body csrf_token) = some csrf_token
catalog_token (delete_category business_id category_id csrf_token) = some csrf_token
catalog_token (reorder_categories business_id body csrf_token) = some csrf_token
catalog_token (create_item business_id category_id body csrf_token) = some csrf_token
catalog_token (update_item business_id item_id body csrf_token) = some csrf_token
catalog_token (delete_item business_id item_id csrf_token) = some csrf_token
catalog_token (reorder_items business_id body csrf_token) = some csrf_token
catalog_token _ = none

abbrev pub catalog_business : CatalogCall → Option Text
catalog_business (get_menu business_id) = some business_id
catalog_business (create_category business_id body csrf_token) = some business_id
catalog_business (update_category business_id category_id body csrf_token) = some business_id
catalog_business (delete_category business_id category_id csrf_token) = some business_id
catalog_business (reorder_categories business_id body csrf_token) = some business_id
catalog_business (create_item business_id category_id body csrf_token) = some business_id
catalog_business (get_item business_id item_id) = some business_id
catalog_business (update_item business_id item_id body csrf_token) = some business_id
catalog_business (delete_item business_id item_id csrf_token) = some business_id
catalog_business (reorder_items business_id body csrf_token) = some business_id
