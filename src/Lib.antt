-- ===== src/Lib.antt =====
-- A verification library of the restaurant engine's TypeScript: the logic of the control center and
-- of the storefront that runs without a view.
--
-- The parts and how they meet. The storefront keeps a guest's cart in the browser (Cart), asks the
-- backend through a transport that is bound to one tenant host (Transport), and shows prices and hours
-- through the renderer (Money, Hours). The control center reads the backend's answers as results and
-- error envelopes (Api), keeps the one session and its CSRF token in the query cache (Session), and
-- derives from the session what a member is offered and where a sign-in leads (Access). Every call of
-- the backend is a method of one client (Client), and what it refuses is shown by a form (Forms, Menu).
-- Its editors parse prices (Money) and times (Hours), reorder lists (Reorder) and compose the
-- storefront (Draft); its mutations send a call and bring the query cache up to date (Workspace). The
-- renderer derives readable colours (Theme), and in development the storefront forwards calls (Proxy). A
-- guest composes lines, places the order and follows it (Checkout); the restaurant works it off (Board).
--
-- Prelude: Boolean tests, lists over native numbers, integers, JavaScript strings as lists of UTF-16
--   units, stable sorting, split and join, decimal digits, sets of texts.
-- Js: numbers (an integer, or anything else by an opaque tag), rounding above the safe integers, the
--   values of JSON.parse and JSON.stringify, and codecs between values and stored texts.
-- Cart: apps/storefront/lib/cart.ts and cart-storage.ts. Cart.Defs has the operations (addLine,
--   removeLine, setLineQuantity, cartItemCount, toPlacementLines), Cart.Totals the totals, Cart.Validate
--   parseCart and serializeCart, Cart.Storage the persistence; a session is a relation in Cart.Sessions.
-- Api: packages/api-client/src/result.ts and errors.ts, apps/control-center/src/api/failure.ts and
--   failures.ts, and the failure readers of hours/hoursData.ts (orders/ordersData.ts summarizes failures
--   with the same code).
-- Session: apps/control-center/src/auth/session.ts, csrf.ts, useLogout.ts and the session part of
--   api/failures.ts. An asynchronous function is two functions, up to its await and behind it; the
--   interleavings are the step relations of Session.Steps. What the refetch after a 403 yields is an
--   argument of unwrap_privileged.
-- Access: permissions.ts of the menu, hours, orders and storefront workspaces, auth/redirect.ts and
--   auth/landing.ts.
-- Transport: apps/storefront/lib/server/tenant-fetch.ts and api-origin.ts. The events of an
--   exchange come in any order.
-- Money: apps/control-center/src/menu/money.ts and packages/storefront-renderer/src/money.ts.
-- Hours: apps/control-center/src/hours/time.ts and
--   packages/storefront-renderer/src/sections/hours-format.ts.
-- Draft: apps/control-center/src/storefront/composition.ts; Draft.SectionForm is the section dialog of
--   storefront/components/SectionEditDialog.tsx.
-- Reorder: apps/control-center/src/menu/reorder.ts.
-- Client: packages/api-client/src, every method of createApiClient but the media group's uploadAsset and
--   fileUrl, as a constructor of Client.Calls.Call and the request that it hands to openapi-fetch;
--   Client.Defs.result_of is the try block of a method.
-- Forms: apps/control-center/src/components/formErrors.ts and storefront/fieldErrors.ts.
-- Menu: apps/control-center/src/menu/itemForm.ts.
-- Theme: packages/storefront-renderer/src/accent.ts and theme/accent-text.ts.
-- Proxy: apps/storefront/lib/server/dev-api-proxy.ts.
-- Pages: apps/storefront/lib/server/storefront-data.ts and page-data.ts, lib/ordering/public-api.ts.
-- Checkout: apps/storefront/components/ordering. Checkout.Defs and Checkout.Submit are CheckoutForm.tsx:
--   its state, its inputs, validate, and handleSubmit before and behind each await; Checkout.Steps lets
--   inputs, presses of the button and answers interleave. Checkout.Tracker is OrderTracker.tsx,
--   Checkout.Picker is ModifierPickerDialog.tsx with AddToCartButton.tsx.
-- Board: apps/control-center/src/orders: Board.Orders is ordersData.ts, orderFormat.ts and the commands of
--   OrderDrawer.tsx, Board.Page the state of OrdersPage.tsx.
-- Workspace: the mutations of apps/control-center/src/{menu/menuData,menu/modifierData,hours/hoursData,
--   orders/ordersData,storefront/storefrontData,media/mediaData}.ts with the keys.ts beside them: the
--   call of mutationFn, run with the session's token as Session.require_csrf finds it, and the effect of
--   onSuccess on the query cache.
--
-- Bounds and fuel. The cart's limits (30 lines, 50 of each) and the other constants are the source's.
-- Three loops run on fuel. The printing of decimal digits gives a number n its n + 1 rounds, and a round
-- divides it by ten; the dates of a weekday get a week for each date; a walk of the lightness gets 256
-- steps, which lead from one end to the other. All else is structural recursion. Sums of prices round
-- as doubles do above 2^53, which the theorem on totals excludes by hypothesis.
--
-- Parameters: openapi-fetch, Number on a text, the arithmetic of doubles in colours, the time zone's
-- offsets and the calendar's ISO texts, JSON.parse and JSON.stringify, localStorage, the query client,
-- the URL parser, decodeURIComponent, the case mappings, node:http with its timer. Their documented
-- behaviour is a law of the record that stands for them, and each record has an instance in the tests.
-- A key of crypto.randomUUID is an argument of the press that mints it, and new; the instant that a
-- text names is a function.
--
-- Not modelled: React components and styles, formats through Intl, the generated schema beyond the
-- fields that are read, the backend (Python), tests and tooling. The upload of an asset, the queries of
-- the control center, the pages of the menu, the media library and the platform, and the storefront's
-- metadata have no model so far.
pub mod Prelude
pub mod Js
pub mod Cart
pub mod Reorder
pub mod Money
pub mod Api
pub mod Session
pub mod Hours
pub mod Access
pub mod Transport
pub mod Draft
pub mod Client
pub mod Forms
pub mod Menu
pub mod Theme
pub mod Workspace
pub mod Proxy
pub mod Pages
pub mod Checkout
pub mod Board
