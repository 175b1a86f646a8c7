-- ===== src/Lib.antt =====
-- gomaasapi, a Go client library for the API of MAAS servers.
--
-- The program has two layers. The lower one (client.go, oauth.go, jsonobject.go) sends signed HTTP
-- requests, repeats them when the server asks for that, and wraps the JSON of the answers. The upper
-- one (controller.go and the files of the API types) checks arguments, builds query parameters,
-- sends requests through the lower layer, and turns failures into the errors of errors.go.
--
-- Files and the code that they model:
--   Prelude            shared names, Boolean tests, lists, 64-bit integers, and actions with errors
--   Strings            Go strings as lists of bytes, and the functions of `strings` and `strconv`
--   Url                util.go; AddAPIVersionToURL and SplitVersionedURL of client.go, with the
--                      regular expression written out as a backtracking match
--   Params             urlparams.go; url.Values is an association list
--   Errors             errors.go and ServerError; Errors/Translate is the `switch` on the status of
--                      a failed request that the operations share
--   Value              what encoding/json and the program's type assertions see of a JSON value
--   Http               requests, answers and the parameter `Platform`; Http/Sign is oauth.go,
--                      Http/Dispatch is dispatchRequest and dispatchSingleRequest, Http/Requests is
--                      the rest of client.go
--   Object             jsonobject.go; Object/Maas is maasobject.go and maas.go
--   Versions           the versions of the API, and their order
--   Schema             the checks of values that the program builds with github.com/juju/schema, and
--                      what it relies on from that package and github.com/juju/version: `Juju`
--   Reading            how all types of the API are read from answers: type assertions, the choice
--                      of a function by the version, and lists; Reading/Choice, Reading/Items and
--                      Reading/Sound are about these
--   Resources          the types of the API and their reading: Networks is vlan.go, subnet.go and
--                      link.go, Fabrics is space.go, fabric.go and staticroute.go, Nics the type of
--                      interface.go, Places is zone.go, pool.go, domain.go and bootresource.go,
--                      Storage is blockdevice.go, partition.go and filesystem.go, Hosts the types
--                      of machine.go and device.go; Resources/Sound is about their reading
--   Files              AddFileArgs of controller.go; Files/Stored and Files/Access are file.go, and
--                      Files and GetFile of controller.go
--   Allocate           AllocateMachineArgs, StorageSpec and InterfaceSpec of controller.go
--   Controller         the controller's state and its request helpers; Controller/Operations has
--                      ReleaseMachines, AddFile, checkCreds, and Delete of file.go, device.go and
--                      interface.go; Controller/Creation is NewController, Controller/Inventory the
--                      operations that read lists, devices and machines, Controller/Allocation
--                      AllocateMachine
--   Interfaces         interface.go: the operations on an interface
--   Machines           machine.go: the searches by identifier, Start and SetOwnerData;
--                      Machines/Devices has Devices and CreateDevice
--   Devices            device.go: CreateInterface
--   TestServer         the test server: TestServer/Nodes has the nodes of testservice.go, who owns
--                      them and the record of the operations on them, TestServer/Nodes/Handler the
--                      dispatch of requests, TestServer/Nodes/Making NewNode and ChangeNode, and
--                      TestServer/Nodes/Matching is about the filter of findFreeNode;
--                      TestServer/Files, Devices, Networks, Tags and Nodegroups have the files, the
--                      devices, the networks with their IP addresses, the tags and zones, and the
--                      node groups and the version, with their handlers; each keeps the fields of
--                      TestServer that it uses. TestServer/Store is Go's maps
--   TestServer/Addresses testservice_utils.go: IP addresses as numbers
--   TestServer/Subnets testservice_subnets.go: the ranges of a subnet and its statistics, and
--                      testservice_vlan.go; Gaps, Taken, Usable, Laws and Statistics are about it
--   TestServer/Registry testservice_subnets.go, testservice_spaces.go and
--                      testservice_staticroutes.go: subnets, spaces and static routes, with their
--                      handlers in Registry/Handlers; TestServer/Numbered is about maps whose keys
--                      are given out in order
--   Testing            testing.go: the handlers of its three servers; Queues, Added, Methods and Laws
--                      are about SimpleTestServer
--   Tests              a platform to run the program on, runs, and the theorems at concrete data
--
-- State is explicit: `World` holds the network, a trace of the requests sent and the waits made,
-- and the global counter of requests; operations of the controller are actions on it that return a
-- value or an error. A map that the caller passes and the code changes is returned with the result.
--
-- Go's standard library and the network (net/http, net/url, mime/multipart, encoding/json,
-- crypto/rand, time), github.com/juju/errors and github.com/juju/collections/set are the parameters
-- `Platform`, `JujuErrors` and `StringSet`: operations, with the documented laws that the program
-- relies on. The message of an error that errors.go makes of a text is what the package makes of the
-- text as a format. github.com/juju/schema and github.com/juju/version are the parameter `Juju`: a value
-- that passes a check has the shape that the check gives. The package net is the parameter `Net` of
-- the test server, with `IpNets` for the methods of IPNet. Base64, url.ParseRequestURI and the
-- conversions of the constraints of an allocation are parameters where they are used. The pure
-- functions of `strings` and `strconv` that the code calls are written out in `Strings`.
--
-- In the test servers a panic is `none`, and what a handler writes is its answer. What the handler of
-- SimpleTestServer leaves is given at a panic too, since the server goes on.
--
-- A type assertion that panics where the type is another gives `panicked`, which no step catches;
-- an error that a function returns is `returned`. A map that is only ranged over is a list in the
-- order of the iteration. A pointer to the controller, which the objects hold, is a parameter.
--
-- The retry loop has the bound of the code, four retries; nothing else needs fuel. An `int64` wraps
-- around at 64 bits where the code computes with one.
--
-- Not modelled: log output; what starts the test servers and registers their handlers (NewTestServer
-- and NewTestMAAS of testservice.go), AddNodeDetails and the decoding of posted subnets, spaces and
-- static routes; the interface declarations (interfaces.go). What the test server
-- writes is a value, and not the text that encoding/json makes of it, but for the devices, whose
-- template is written out.
pub mod Prelude
pub mod Strings
pub mod Url
pub mod Params
pub mod Errors
pub mod Value
pub mod Versions
pub mod Schema
pub mod Reading
pub mod Resources
pub mod Http
pub mod Files
pub mod Object
pub mod Controller
pub mod Allocate
pub mod Interfaces
pub mod Machines
pub mod Devices
pub mod Testing
pub mod TestServer
pub mod Tests
