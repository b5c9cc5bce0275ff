-- ===== src/Lib.antt =====
-- csi-driver-trusted-ca: a CSI driver that delivers trusted CA certificates to pods as read-only
-- ephemeral volumes. The kubelet calls the node server, which registers the volume with a storage
-- backend, has the volume manager fetch the certificates and write them to the storage, and bind
-- mounts the volume's data into the pod. The storage writes with an atomic writer, which checks the
-- paths of the payload, fills a new timestamped directory and switches a link to it.
--
-- The files and the code that they model:
--   Path        path/filepath and strings as the code uses them: Clean (clean_elems), Split, IsAbs.
--   Validate    pkg/util/atomic_writer.go: validatePath, validatePayload (validate_path,
--               validate_payload). The payload's map is a list in the order of one iteration, and
--               the cleaned paths are lists of elements. Path.Inside has what cleaning leaves.
--   Sys, Os     the operating system's calls that the writer makes, on a tree of files below the
--               target directory: a call fails as the environment chooses (`faults`), or makes its
--               one change, after which other processes see the new tree (`observed`). Sys.Keeps and
--               Sys.Hoare are the rules by which programs of such calls are proved, Sys.Sure and
--               Sys.Returns those for programs none of whose calls fails by chance.
--   Writer      pkg/util/atomic_writer.go: Write (write) and each of its steps, a function each. Its
--               children follow the steps: Stage (the calls before the switch), Fresh and Named (the
--               new directory), Switch, Retire, Old (the directory to retire), Atomic (Write as a
--               whole), Delivers and Complete (the files of the payload), View (what readers of the
--               data directory see), Visible (the payload there, with Spares and Held).
--   Storage     pkg/storage/interfaces.go, pkg/metadata/metadata.go: the interface, a record of
--               operations over a state. Storage.Memory: pkg/storage/memory.go, MemoryFS.
--   Filesystem  pkg/storage/filesystem.go: the metadata of the volumes on the tree of files, and
--               fsGroupForMetadata with strconv.ParseInt. Filesystem.Write: WriteFiles and
--               ListVolumes. Within runs the atomic writer on the tree below one directory, Below
--               and Atomic have what readers see meanwhile, Visible what they see then, both up to the
--               files' groups (Groups), which Grouped is about, with Regrouped and Chowned. Calm,
--               Register, Kept, Listing and Stray run the metadata's operations where no call fails
--               by chance. Interface is Filesystem as a backend of the storage interface, Published
--               runs the node server over it, and Restart NewManager. Refused has an absolute base
--               directory, which what reads refuses. ReadFile is left out.
--   Manager     pkg/manager/manager.go: the managed volumes with their stop channels, and every
--               method. Manager.Runs has sequences of calls; since each method holds the lock, the
--               calls of concurrent requests are such a sequence. Manager.Resume is about
--               NewManager.
--   Driver      pkg/driver/nodeserver.go: NodePublishVolume with its deferred cleanup, and
--               NodeUnpublishVolume, over any storage and any mounter. Driver.Written is about what
--               was written when a call succeeds, Driver.Known and Driver.Again about a call that is
--               repeated. Driver.Servers: the identity and the controller server and the other
--               methods of the node server; Driver.Calm is about the manager in every call. Driver.Steps
--               has the two methods in steps, for calls that run at the same time, and a relation of
--               the states that they reach: Alone, Calm, Race. Driver.Wiring:
--               pkg/driver/driver.go, New, NewWithListener and buildServers, with
--               NewGRPCServerWithListener of server.go.
--   Source      pkg/source: New and getSource, the configurations, and the files that GetFiles makes
--               of what Kubernetes or the registry returns.
--   LinuxTls    pkg/linuxtls: CreateCABundle, OpenSSLRehash and DirFuncsForVolume, as functions that
--               Write runs on the new directory. Bundle has the text of the bundle, Create the
--               whole, Local and Rehash that they keep out of what readers see, Leaves that they
--               leave the files alone.
--   Registry    pkg/registry/util.go: parseReference and ContainsTag. Registry.Client and
--               Registry.Pull: pkg/registry/client.go. Source.Oci puts Pull into the registry
--               source's GetFiles.
--   Endpoint    pkg/driver/server.go: parseEndpoint. Endpoint.Server: NewGRPCServer.
--   Command     cmd/app: the options' defaults and the wiring of NewCommand, with NewFilesystem of
--               pkg/storage/filesystem.go, over any storage and over Filesystem. Command.Serving has what
--               follows when it serves, Refused that it does not below an absolute data root.
--   Common      numbers, texts, maps and lists that the parts share.
--
-- Bounds and choices. Texts are lists of bytes. os.MkdirTemp draws its names from a list given to
-- it and fails when the list is used up; its real bound is 10000 draws. Loops over maps take the
-- order of the list, and a theorem over every list holds for every order. Links are followed at the
-- last element of a path only, which is where the code uses them but for the files that WriteFiles
-- chowns, whose path goes through ..data (Filesystem.Write.written_file). The umask is 0. A file
-- has a user and a group, a directory has none. The working directory is the root, so that a
-- relative data root, such as the Helm chart's, names the same directory for os.DirFS("/") and for
-- the functions of os; what fs.ValidPath refuses, as it does every path below an absolute data
-- root, fails (Filesystem.open_fs, LinuxTls.bundle_func). The writer is alone in its target
-- directory, as its comment asks. No definition of code runs on fuel: every loop is over a list.
-- Calls in steps (Driver.Steps) change at every step what one call of the manager, the storage, the
-- source or the mount library changes; a storage's method is one step there, which holds of
-- MemoryFS.
--
-- Parameters: encoding/json and apiequality.Semantic (Storage.Memory.Codec), mount-utils
-- (Driver.Mounter), what the Kubernetes client returns, Docker's client and the library that copies
-- images (Registry.Client.Docker, Registry.Pull.Remote), the parser of image references, the
-- functions that Write runs on the new directory, the command openssl, os.Remove of the socket and
-- net.Listen.
--
-- Not modelled: Run, Stop and the interceptor of pkg/driver, which call the gRPC library and log;
-- the hash of the node's name; cobra and the gRPC library; logging; ReadFile of Filesystem; the
-- Windows branch of Write; the Helm chart and the end-to-end tests.
pub mod Common
pub mod Path
pub mod Validate
pub mod Sys
pub mod Os
pub mod Writer
pub mod Storage
pub mod Manager
pub mod Driver
pub mod Endpoint
pub mod Filesystem
pub mod Source
pub mod LinuxTls
pub mod Registry
pub mod Command
